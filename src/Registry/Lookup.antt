-- ===== src/Registry/Lookup.antt =====
-- Which credentials are found for an image.
use macos_exec_kubelet.Base.{
  String, true, false, none, some, List, [], ◌∷◌, ◌++◌, string_eq, ◌≡◌, ◌≢◌, ◌↔◌, refl, arith, inl,
  inr, Bool-cases, Option-cases, ap,
}
use macos_exec_kubelet.Registry.{
  AuthConfig, Keyring, RegistryCredentials, RegistryCredentialStore, Packages, is_empty,
  credentials_of, complete, first_usable, for_image,
}

abbrev pub AllEmpty : List AuthConfig → Type 0
AllEmpty [] = Unit
AllEmpty (a ∷ rest) = (is_empty (credentials_of a) ≡ true) × AllEmpty rest

-- All entries before this usable one are empty.
pub record FirstUsable (configs : List AuthConfig) (a : AuthConfig) : Type 0 where
  pub skipped : List AuthConfig
  pub rest : List AuthConfig
  pub place : configs ≡ skipped ++ a ∷ rest
  pub all_empty : AllEmpty skipped
  pub usable : is_empty (credentials_of a) ≡ false

module _ (pkg : Packages) where
  -- The credentials of an entry: its login, and its server or, if it has none, the domain of the
  -- image, which may be unknown.
  pub record CompletedFrom (image : String) (a : AuthConfig) (c : RegistryCredentials)
      : Type 0 where
    pub same_username : c.username ≡ a.username
    pub same_password : c.password ≡ a.password
    pub own_server : a.server_address ≢ "" → c.server ≡ a.server_address
    pub domain_of_image :
        (domain : String)
        → a.server_address ≡ ""
        → pkg.domain image ≡ some domain
        → c.server ≡ domain
    pub unknown_domain : a.server_address ≡ "" → pkg.domain image ≡ none → c.server ≡ ""

  complete-CompletedFrom :
      (image : String) (a : AuthConfig)
      → CompletedFrom image a (complete pkg image (credentials_of a))
  unfolding complete
  complete-CompletedFrom image a = record {
    same_username = ground arith;
    same_password = ground arith;
    own_server = λ d. ground arith;
    domain_of_image = λ domain e f. ground arith;
    unknown_domain = λ e f. ground arith;
  }

  first_usable-FirstUsable :
      (image : String) (configs : List AuthConfig) (c : RegistryCredentials)
      → first_usable pkg image configs ≡ some c
      → (a : AuthConfig) × FirstUsable configs a × (c ≡ complete pkg image (credentials_of a))
  unfolding first_usable
  first_usable-FirstUsable image [] c h = cc
  first_usable-FirstUsable image (a ∷ rest) c h = elim (Bool-cases (is_empty (credentials_of a))) [
    | inr usable ↦ (
      a,
      record { skipped = []; rest = rest; place = refl; all_empty = tt; usable = usable },
      ground arith,
    )
    | inl empty ↦
        let (b, f, e) = first_usable-FirstUsable image rest c (ground arith) in
        (
          b,
          record {
            skipped = a ∷ f.skipped;
            rest = f.rest;
            place = ap (λ (l : List AuthConfig). a ∷ l) f.place;
            all_empty = (empty, f.all_empty);
            usable = f.usable;
          },
          e,
        )
  ]

  first_usable-none :
      (image : String) (configs : List AuthConfig)
      → (first_usable pkg image configs ≡ none) ↔ AllEmpty configs
  unfolding first_usable
  first_usable-none image [] = (λ _. tt, λ _. refl)
  first_usable-none image (a ∷ rest) = ground (arith, first_usable-none image rest)

  complete_same_login :
      (image : String) (c : RegistryCredentials) → is_empty (complete pkg image c) ≡ is_empty c
  unfolding complete
  complete_same_login image c = ground arith

  for_image_found :
      (s : RegistryCredentialStore) (image : String) (c : RegistryCredentials)
      → for_image pkg s image ≡ some c
      → (is_empty c ≡ false)
        × ((keyring : Keyring) × (a : AuthConfig) × (s.keyring ≡ some keyring)
            × ((pkg.lookup keyring image).1 ≡ true)
            × FirstUsable (pkg.lookup keyring image).0 a
            × CompletedFrom image a c)
  unfolding for_image
  for_image_found s image c h = elim (Option-cases s.keyring) [
    | inl n ↦ absurd (ground arith)
    | inr (keyring, k) ↦ elim (Bool-cases (pkg.lookup keyring image).1) [
      | inr unknown ↦ absurd (ground arith)
      | inl known ↦
          let (a, f, e) =
            first_usable-FirstUsable image (pkg.lookup keyring image).0 c (ground arith) in
          (
            rw (e, complete_same_login image) f.usable,
            (keyring, a, k, known, f, rw e (complete-CompletedFrom image a)),
          )
    ]
  ]

  for_image-none :
      (s : RegistryCredentialStore) (image : String)
      → (for_image pkg s image ≡ none) ↔ (
          (keyring : Keyring)
          → s.keyring ≡ some keyring
          → (pkg.lookup keyring image).1 ≡ true
          → AllEmpty (pkg.lookup keyring image).0)
  unfolding for_image
  for_image-none s image = (
    λ h keyring k known. (first_usable-none image _).0 (ground arith),
    λ h. elim (Option-cases s.keyring) [
      | inl n ↦ rw n
      | inr (keyring, k) ↦ elim (Bool-cases (pkg.lookup keyring image).1) [
        | inr unknown ↦ ground arith
        | inl known ↦ ground (arith, (first_usable-none image _).1 (h keyring k known))
      ]
    ],
  )

  -- The credentials that ForImage finds are never empty. They are the user name and the password of
  -- the first entry of the keyring's answer that has one of the two, with the entry's server or, if
  -- it has none, the domain of the image, where that can be parsed. ForImage finds nothing exactly when there is no keyring, or the keyring does
  -- not know the image, or all the entries that it gives are empty.
  pub for_image_lem :
      (s : RegistryCredentialStore) (image : String)
      → ((c : RegistryCredentials)
          → for_image pkg s image ≡ some c
          → (is_empty c ≡ false)
            × ((keyring : Keyring) × (a : AuthConfig) × (s.keyring ≡ some keyring)
                × ((pkg.lookup keyring image).1 ≡ true)
                × FirstUsable (pkg.lookup keyring image).0 a
                × CompletedFrom image a c))
        × ((for_image pkg s image ≡ none) ↔ (
            (keyring : Keyring)
            → s.keyring ≡ some keyring
            → (pkg.lookup keyring image).1 ≡ true
            → AllEmpty (pkg.lookup keyring image).0))
  for_image_lem s image = (for_image_found s image, for_image-none s image)
