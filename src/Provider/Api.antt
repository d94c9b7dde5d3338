-- ===== src/Provider/Api.antt =====
-- What the provider asks of the Kubernetes API server and of encoding/json: the replies are a
-- parameter.
use macos_exec_kubelet.Base.{String, Option, List, ℤ, Result, Error}
use macos_exec_kubelet.Api.{ConfigMap}
use macos_exec_kubelet.Registry.{DockerConfigEntry}

pub record Secret : Type 0 where
  pub uid : String
  pub namespace : String
  pub name : String
  pub type : String
  pub contents : List (String × String)

pub record TokenRequest : Type 0 where
  pub audiences : List String
  pub expiration_seconds : Option ℤ

-- The getters take the namespace and the name. A service account is read for its
-- imagePullSecrets, by name.
pub record KubeApi : Type 0 where
  pub get_config_map : String → String → Result ConfigMap
  pub create_token : String → String → TokenRequest → Result String
  pub get_service_account : String → String → Result (List String)
  pub get_secret : String → String → Result Secret
  pub delete_pod : String → String → Option Error
  -- json.Unmarshal into a DockerConfigJSON, for its auths
  pub unmarshal : String → Result (List DockerConfigEntry)
