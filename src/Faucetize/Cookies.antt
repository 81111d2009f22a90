-- ===== src/Faucetize/Cookies.antt =====
-- The cookies of the rules of access lists, which `Faucetizer` of forch/faucetizer.py numbers as it
-- reads its files. The lists of a file are parsed outside; a file without any is `none`.
pub mod Distinct
use forch.Base.{
  ℕ, zero, suc, ◌+◌, String, ◌<>◌, Bool, true, false, Option, none, some, List, [], ◌∷◌, ◌++◌,
  string_eq, if◌then◌else◌,
}
use forch.Base.Dict
use forch.Base.Dict.{Dict}
use forch.Base.Exec.{Exec, Result, ok, raised, plain_exception, pure, ◌>>◌, modify}

-- `rule_map`: a cookie is written only where it has a `rule`.
pub record Rule : Type 0 where
  pub has_rule : Bool
  pub cookie : Option ℕ
  pub text : String

-- The lists of a file, by their names
abbrev pub AclsConfig : Type 0
AclsConfig = Dict String (List Rule)

pub record Lists : Type 0 where
  pub next_cookie : ℕ
  pub acl_configs : Dict String AclsConfig

-- The loop over the rules of a list, from the next cookie on
unfoldable pub number_rules : ℕ → List Rule → List Rule × ℕ
number_rules n [] = ([], n)
number_rules n (r ∷ rules) =
    let more = number_rules (suc n) rules in
    let rest = number_rules n rules in
    if r.has_rule then (record r { cookie = some n } ∷ more.0, more.1) else (r ∷ rest.0, rest.1)

-- The loop over the lists
unfoldable pub number_acls : ℕ → AclsConfig → AclsConfig × ℕ
unfolding number_rules
number_acls n [] = ([], n)
number_acls n ((name, rules) ∷ acls) =
    let (numbered, m) = number_rules n rules in
    let (rest, k) = number_acls m acls in ((name, numbered) ∷ rest, k)

-- The part of `_augment_acls_config` after its guards
abbrev pub store_acls : AclsConfig → String → Lists → Lists
store_acls acls file s =
    let (numbered, n) = number_acls s.next_cookie acls in
    record { next_cookie = n; acl_configs = Dict.insert file numbered s.acl_configs }

abbrev pub augment : AclsConfig → String → ℕ → Exec Lists (Unit {0})
augment [] file next s = (ok tt, s)
augment (a ∷ acls) file zero s = (raised plain_exception, s)
augment (a ∷ acls) file (suc n) s = (ok tt, store_acls (a ∷ acls) file s)

-- `_augment_acls_config`. A cookie that is not initialized is 0.
unfoldable pub augment_acls_config : Option AclsConfig → String → Exec Lists (Unit {0})
unfolding number_acls
augment_acls_config none file s = (ok tt, s)
augment_acls_config (some acls) file s = augment acls file s.next_cookie s

-- `reload_include_file`, of a file that was read; an empty file is `none`
unfoldable pub reload_include_file : String → Option (Option AclsConfig) → Exec Lists (Unit {0})
unfolding augment_acls_config
reload_include_file file none s = (ok tt, s)
reload_include_file file (some acls) s = augment_acls_config acls file s

abbrev pub Files : Type 0
Files = List (String × Option (Option AclsConfig))

unfoldable pub reload_all : Files → Exec Lists (Unit {0})
unfolding reload_include_file
reload_all [] = pure tt
reload_all ((file, content) ∷ files) = reload_include_file file content >> reload_all files

-- `_process_structural_config`, of its lists: the included files come first.
unfoldable pub process_structural_config :
    String → Files → Option AclsConfig → Exec Lists (Unit {0})
unfolding reload_all augment_acls_config
process_structural_config file includes acls s =
    (reload_all includes >> augment_acls_config acls file)
      (record { next_cookie = 1; acl_configs = [] })
