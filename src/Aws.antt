-- ===== src/Aws.antt =====
-- pkg/providers/aws/launch_group.go: launch templates and Auto Scaling groups.
pub mod Tags
pub mod Templates
pub mod Groups
pub mod Replacement
mod Samples
use etcd_infra.Common.{
  ℕ, ℤ, Bool, true, false, List, [], ◌∷◌, Option, none, some, ◌⊎◌, inl, inr, ◌||◌, ◌&&◌,
  if◌then◌else◌, contains, to_lower, Text, codes, text_eq,
}

-- An error of the SDK; one that is no API error has neither code nor message.
pub record SdkError : Type 0 where
  pub is_api : Bool
  pub code : Text
  pub message : Text

-- apiErrorCode of an error that is there
unfoldable pub api_error_code : SdkError → Text
api_error_code e = if e.is_api then e.code else codes "unknown"

unfoldable pub is_group_not_found_error : SdkError → Bool
is_group_not_found_error e =
    e.is_api
    && text_eq e.code (codes "ValidationError")
    && contains (to_lower e.message) (codes "not found")

unfoldable pub is_launch_template_not_found : SdkError → Bool
unfolding api_error_code
is_launch_template_not_found e =
    let code = api_error_code e in
    text_eq code (codes "InvalidLaunchTemplateName.NotFoundException")
    || text_eq code (codes "InvalidLaunchTemplateId.NotFound")
    || text_eq code (codes "InvalidLaunchTemplateId.Malformed")

pub data AwsError : Type 0 where
  client_nil already_exists no_id group_missing timed_out interrupted : AwsError
  sdk : SdkError → AwsError

pub record LaunchGroupSpec : Type 0 where
  pub name : Text
  pub subnet_ids : List Text
  pub security_group_ids : List Text
  pub image_id : Text
  pub instance_type : Text
  pub iam_instance_profile : Text
  pub user_data : Text
  pub data_volume_size_gb : ℤ
  pub data_volume_iops : ℤ
  pub data_volume_throughput : ℤ
  pub tags : List (Text × Text)
  pub count : ℤ

pub data Profile : Type 0 where
  by_arn by_name : Text → Profile

-- The data volume of a template: encrypted, and deleted with its instance
pub record VolumeRequest : Type 0 where
  pub size : ℤ
  pub iops : Option ℤ
  pub throughput : Option ℤ
  pub encrypted : Bool
  pub delete_on_termination : Bool

pub record TemplateRequest : Type 0 where
  pub name : Text
  pub image_id : Text
  pub instance_type : Text
  pub security_group_ids : List Text
  pub require_tokens : Bool
  pub hop_limit : ℕ
  pub user_data : Option Text
  pub profile : Option Profile
  pub volume : Option VolumeRequest
  pub instance_tags : List (Text × Text)
  pub volume_tags : List (Text × Text)
  pub template_tags : List (Text × Text)

pub record LaunchTemplate : Type 0 where
  pub id : Text
  pub version : ℕ
  pub tags : List (Text × Text)

pub record GroupRequest : Type 0 where
  pub name : Text
  pub template_id : Text
  pub version : ℕ
  pub min_size : ℤ
  pub max_size : ℤ
  pub desired_capacity : ℤ
  pub subnets : Text
  pub tags : List (Text × Text)

pub record GroupMember : Type 0 where
  pub id : Text
  pub lifecycle_state : Text
  pub health_status : Text
  pub availability_zone : Text

pub record Group : Type 0 where
  pub tags : List (Text × Text)
  pub instances : List GroupMember

-- The SDK's clients, the clock and the sleep that the context may end, over the state of the cloud. Each
-- call answers and leaves a state; nothing is assumed of them here.
pub record Cloud (W : Type 0) : Type 0 where
  pub has_templates : Bool
  pub has_groups : Bool
  pub create_template : TemplateRequest → W → W × (SdkError ⊎ Option LaunchTemplate)
  pub describe_templates : Text → W → W × (SdkError ⊎ List LaunchTemplate)
  pub delete_template : Text → W → W × Option SdkError
  pub create_group : GroupRequest → W → W × Option SdkError
  pub suspend_processes : Text → List Text → W → W × Option SdkError
  pub describe_groups : Text → W → W × (SdkError ⊎ List Group)
  pub delete_group : Text → W → W × Option SdkError
  pub now : W → ℕ
  pub sleep : ℕ → W → W × Bool
