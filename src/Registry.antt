-- ===== src/Registry.antt =====
-- pkg/resource/registry_credentials.go. A docker keyring belongs to Kubernetes: it is kept as what
-- was added to it, and its lookup is a parameter, as is the parser of image references.
pub mod Lookup
use macos_exec_kubelet.Base.{
  String, Bool, true, false, ◌&&◌, Option, none, some, List, [], ◌∷◌, Result, ok, err, ◌==◌,
  string_eq, if◌then◌else◌,
}

-- An entry of a docker config (registry, user name, password), and authentication data as a
-- keyring gives it.
pub record DockerConfigEntry : Type 0 where
  pub registry : String
  pub username : String
  pub password : String

pub record AuthConfig : Type 0 where
  pub server_address : String
  pub username : String
  pub password : String

-- The coordinates of a secret with its docker config, as passed to `Add`, in order.
pub record KeyringEntry : Type 0 where
  pub uid : String
  pub namespace : String
  pub name : String
  pub config : List DockerConfigEntry

abbrev pub Keyring : Type 0
Keyring = List KeyringEntry

pub record RegistryCredentials : Type 0 where
  pub server : String
  pub username : String
  pub password : String

abbrev pub is_empty : RegistryCredentials → Bool
is_empty c = c.username == "" && c.password == ""

-- The keyring is nil in the zero value.
pub record RegistryCredentialStore : Type 0 where
  pub keyring : Option Keyring

unfoldable pub new_registry_credential_store : Option Keyring → RegistryCredentialStore
new_registry_credential_store keyring = record { keyring = keyring }

-- What the code asks of other packages: `Lookup` of the keyring with its flag, and the domain of
-- an image reference, if it can be parsed.
pub record Packages : Type 0 where
  pub lookup : Keyring → String → List AuthConfig × Bool
  pub domain : String → Option String

abbrev pub credentials_of : AuthConfig → RegistryCredentials
credentials_of a = record {
  server = a.server_address;
  username = a.username;
  password = a.password;
}

module _ (pkg : Packages) where
  with_server : String → RegistryCredentials → Option String → RegistryCredentials
  with_server image c none = c
  with_server image c (some domain) = record c { server = domain }

  -- The server of the credentials, or the domain of the image.
  unfoldable pub complete : String → RegistryCredentials → RegistryCredentials
  unfolding with_server
  complete image c = if c.server == "" then with_server image c (pkg.domain image) else c

  unfoldable pub first_usable : String → List AuthConfig → Option RegistryCredentials
  first_usable image [] = none
  first_usable image (a ∷ rest) =
      let found = first_usable image rest in
      if is_empty (credentials_of a) then found else some (complete image (credentials_of a))

  for_image_in : Keyring → String → Option RegistryCredentials
  unfolding first_usable
  for_image_in keyring image =
      let (configs, found) = pkg.lookup keyring image in
      if found then first_usable image configs else none

  -- The pair of credentials and flag, as an option.
  unfoldable pub for_image : RegistryCredentialStore → String → Option RegistryCredentials
  unfolding for_image_in
  for_image s image = elim s.keyring [ none ↦ none | some keyring ↦ for_image_in keyring image ]
