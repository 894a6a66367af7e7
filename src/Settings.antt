-- ===== src/Settings.antt =====
-- cmd/astrolabe/main.go: the settings that the server reads from its flags and its environment. `env` is
-- `os.LookupEnv`, `scan` what `fmt.Sscanf` with "%d" leaves in a zero, and a configuration `C` is made
-- by client-go.
use astrolabe_server.Common.{
  String, string_key, Bool, not, ◌&&◌, ◌||◌, Option, none, some, ◌⊎◌, inl, inr, ◌≡◌, if◌then◌else◌,
  ◌==◌, arith, Option-cases,
}
use astrolabe_server.Common.Int.{ℤ}
use astrolabe_server.Common.Format.{◌<>◌}

module _ (env : String → Option String) where
  -- `os.Getenv`
  abbrev pub value_of : String → String
  value_of key = elim (env key) [ none ↦ "" | some v ↦ v ]

  -- `getEnv`, `getEnvBool` and `getEnvInt`
  unfoldable pub get_env : String → String → String
  get_env key default_value = if value_of key == "" then default_value else value_of key

  unfoldable pub get_env_bool : String → Bool → Bool
  get_env_bool key default_value =
      if value_of key == "" then default_value else value_of key == "true" || value_of key == "1"

  unfoldable pub get_env_int : (String → ℤ) → String → ℤ → ℤ
  get_env_int scan key default_value =
      if value_of key == "" then default_value else scan (value_of key)

  -- The label selector of `main`, from the flag.
  unfoldable pub label_selector : String → String
  label_selector flag =
      let env_selector = value_of "LABEL_SELECTOR" in
      if not (env_selector == "") || env_selector == ""
      then elim (env "LABEL_SELECTOR") [ none ↦ flag | some _ ↦ env_selector ]
      else flag

  -- `getKubeConfig`, from the flags, the in-cluster configuration and the home directory.
  module _ {C : Type 0} (in_cluster_config : String ⊎ C) (home : String ⊎ String)
      (build : String → String ⊎ C) where
    unfoldable pub from_path : String → String ⊎ C
    from_path path = elim (build path) [
      | inl e ↦ inl ("failed to build config from kubeconfig: " <> e)
      | inr c ↦ inr c
    ]

    unfoldable pub fall_back : String → String ⊎ C
    unfolding from_path
    fall_back kubeconfig =
        let path = if kubeconfig == "" then value_of "KUBECONFIG" else kubeconfig in
        if path == ""
        then elim home [
          | inl e ↦ inl ("failed to get home directory: " <> e)
          | inr dir ↦ from_path (dir <> "/.kube/config")
        ]
        else from_path path

    unfoldable pub get_kube_config : Bool → String → String ⊎ C
    unfolding fall_back
    get_kube_config in_cluster kubeconfig =
        if in_cluster && kubeconfig == ""
        then elim in_cluster_config [ inl _ ↦ fall_back kubeconfig | inr c ↦ inr c ]
        else fall_back kubeconfig

  -- A variable that is set, even to the empty text, goes before the flag.
  label_selector_lem :
      (flag : String)
      → label_selector flag ≡ elim (env "LABEL_SELECTOR") [ none ↦ flag | some v ↦ v ]
  unfolding label_selector
  label_selector_lem flag = elim (Option-cases (env "LABEL_SELECTOR")) [
    | inl p ↦ ground (arith)
    | inr (v, p) ↦ ground (arith)
  ]
