-- ===== src/Resources.antt =====
-- resource_extractor.go, clonefile.go and vz.go of internal/utils. Quantities, the hash and the file
-- system are parameters.
pub mod Containers
use macos_exec_kubelet.Base.{
  ℕ, ℤ, String, ◌<>◌, Bool, true, false, Option, none, some, List, [], ◌∷◌, Error, message, wrap,
  Result, ok, err, to_word, string_eq,
}
use macos_exec_kubelet.Base.Dict
use macos_exec_kubelet.Base.Dict.{Dict}

-- resource.Quantity, by what AsInt64 says of it; a key that is missing gives the zero quantity.
module _ {Q : Type 0} (as_int64 : Q → ℤ × Bool) (zero_quantity : Q) where
  or_zero_quantity : Option Q → Q
  or_zero_quantity none = zero_quantity
  or_zero_quantity (some q) = q

  -- A conversion of an int64 to 64 bits without a sign.
  unsigned : String → ℤ × Bool → Result ℕ
  unsigned failure (n, true) = ok (to_word 64 n)
  unsigned failure (n, false) = err (message failure)

  unfoldable pub extract_cpu_request : Dict String Q → Result ℕ
  unfolding or_zero_quantity unsigned
  extract_cpu_request rl =
      unsigned "failed to parse CPU request" (as_int64 (or_zero_quantity (Dict.lookup "cpu" rl)))

  unfoldable pub extract_memory_request : Dict String Q → Result ℕ
  unfolding or_zero_quantity unsigned
  extract_memory_request rl =
      unsigned "failed to parse memory request"
        (as_int64 (or_zero_quantity (Dict.lookup "memory" rl)))

-- FileCloner
pub record FileCloner : Type 0 where
  pub temp_dir : String
  pub filename_prefix : String
  pub sys_clonefile_func : String → String → Option Error

pub data CloneCall : Type 0 where
  remove_file : String → CloneCall
  clone_file : String → String → CloneCall

module _ (join : List String → String) (base : String → String) where
  unfoldable pub new_file_cloner : String → (String → String → Option Error) → FileCloner
  new_file_cloner temp_dir clonefile = record {
    temp_dir = temp_dir;
    filename_prefix = "macosvz_file_";
    sys_clonefile_func = clonefile;
  }

  abbrev cloned_path : FileCloner → String → String → String
  cloned_path fc path pattern =
      join (fc.temp_dir ∷ (fc.filename_prefix <> (base path <> ("." <> pattern))) ∷ [])

  after_clone : String → Option Error → Result String
  after_clone cloned (some e) = err (wrap "failed to clone storage file" e)
  after_clone cloned none = ok cloned

  -- The reply of os.Remove is not looked at.
  unfoldable pub clonefile : FileCloner → String → String → Result String × List CloneCall
  unfolding after_clone
  clonefile fc path pattern =
      let cloned = cloned_path fc path pattern in
      (
        after_clone cloned (fc.sys_clonefile_func path cloned),
        remove_file cloned ∷ clone_file path cloned ∷ [],
      )

-- GetContainerID: strings.ToUpper, and the SHA-256 sum of a text in base 16.
module _ (to_upper sha256 : String → String) where
  unfoldable pub get_container_id : String → String → String
  get_container_id protocol container_name =
      protocol <> ("://" <> sha256 (to_upper ("containers/" <> container_name)))
