-- ===== src/Faucetize/Cookies/Distinct.antt =====
-- No two rules have the same cookie.
use forch.Base.{
  ℕ, zero, suc, ◌≤◌, ◌<◌, ◌≡◌, refl, ◌≢◌, String, Bool, true, false, Option, none, some, List, [],
  ◌∷◌, ◌++◌, All, arith, string_eq, ◌==◌, if◌then◌else◌,
}
use forch.Base.Dict
use forch.Base.Dict.{Dict}
use forch.Base.Exec.{after-keeps}
use forch.Vlans.Sets.{NotIn, NoDup}
use forch.Faucetize.Cookies.{
  Rule, AclsConfig, Lists, number_rules, number_acls, store_acls, augment, augment_acls_config,
  reload_include_file, Files, reload_all, process_structural_config,
}

module _ (P : ℕ → Type 0) where
  All-append : (xs ys : List ℕ) → All P xs → All P ys → All P (xs ++ ys)
  All-append [] ys p q = q
  All-append (x ∷ xs) ys p q = (p.0, All-append xs ys p.1 q)

  All-left : (xs ys : List ℕ) → All P (xs ++ ys) → All P xs
  All-left [] ys h = tt
  All-left (x ∷ xs) ys h = (h.0, All-left xs ys h.1)

  All-right : (xs ys : List ℕ) → All P (xs ++ ys) → All P ys
  All-right [] ys h = h
  All-right (x ∷ xs) ys h = All-right xs ys h.1

All-map : {P Q : ℕ → Type 0} (xs : List ℕ) → ((x : ℕ) → P x → Q x) → All P xs → All Q xs
All-map [] f h = tt
All-map (x ∷ xs) f h = (f x h.0, All-map xs f h.1)

All-both :
    {P Q R : ℕ → Type 0} (xs : List ℕ)
    → ((x : ℕ) → P x → Q x → R x)
    → All P xs
    → All Q xs
    → All R xs
All-both [] f p q = tt
All-both (x ∷ xs) f p q = (f x p.0 q.0, All-both xs f p.1 q.1)

NoDup-append : (xs ys : List ℕ) → NoDup xs → NoDup ys → All (λ x. NotIn x ys) xs → NoDup (xs ++ ys)
NoDup-append [] ys p q h = q
NoDup-append (x ∷ xs) ys p q h =
    (All-append (λ w. w ≢ x) xs ys p.0 h.0, NoDup-append xs ys p.1 q h.1)

NoDup-left : (xs ys : List ℕ) → NoDup (xs ++ ys) → NoDup xs
NoDup-left [] ys h = tt
NoDup-left (x ∷ xs) ys h = (All-left (λ w. w ≢ x) xs ys h.0, NoDup-left xs ys h.1)

NoDup-right : (xs ys : List ℕ) → NoDup (xs ++ ys) → NoDup ys
NoDup-right [] ys h = h
NoDup-right (x ∷ xs) ys h = NoDup-right xs ys h.1

NoDup-apart : (xs ys : List ℕ) → NoDup (xs ++ ys) → All (λ x. NotIn x ys) xs
NoDup-apart [] ys h = tt
NoDup-apart (x ∷ xs) ys h = (All-right (λ w. w ≢ x) xs ys h.0, NoDup-apart xs ys h.1)

-- The cookies that are written
abbrev pub cookies_of_rules : List Rule → List ℕ
cookies_of_rules [] = []
cookies_of_rules (r ∷ rules) =
    let rest = cookies_of_rules rules in
    if r.has_rule then elim r.cookie as (λ _. List ℕ) [ none ↦ rest | some c ↦ c ∷ rest ] else rest

abbrev pub cookies_of_acls : AclsConfig → List ℕ
cookies_of_acls [] = []
cookies_of_acls ((name, rules) ∷ acls) = cookies_of_rules rules ++ cookies_of_acls acls

abbrev pub cookies : Dict String AclsConfig → List ℕ
cookies [] = []
cookies ((file, acls) ∷ configs) = cookies_of_acls acls ++ cookies configs

-- Cookies that were given from one number on, up to another
record IsRun (n m : ℕ) (cs : List ℕ) : Type 0 where
  grows : n ≤ m
  between : All (λ c. (n ≤ c) × (c < m)) cs
  apart : NoDup cs

IsRun-cons : (n k : ℕ) (cs : List ℕ) → IsRun (suc n) k cs → IsRun n k (n ∷ cs)
IsRun-cons n k cs v = record {
  grows = omega (arith, v.grows);
  between = (
    (omega arith, omega (arith, v.grows)),
    All-map cs (λ c h. (omega (arith, h.0), h.1)) v.between,
  );
  apart = (All-map cs (λ c h e. omega (arith, h.0, e)) v.between, v.apart);
}

rule-IsRun :
    (b : Bool) (n : ℕ) (r : Rule) (more rest : List Rule × ℕ)
    → r.has_rule ≡ b
    → IsRun (suc n) more.1 (cookies_of_rules more.0)
    → IsRun n rest.1 (cookies_of_rules rest.0)
    → let both : List Rule × ℕ =
        if b then (record r { cookie = some n } ∷ more.0, more.1) else (r ∷ rest.0, rest.1) in
      IsRun n both.1 (cookies_of_rules both.0)
rule-IsRun true n r more rest e v w = rw e (IsRun-cons n more.1 (cookies_of_rules more.0) v)
rule-IsRun false n r more rest e v w = rw e w

number_rules-IsRun :
    (n : ℕ) (rules : List Rule)
    → IsRun n (number_rules n rules).1 (cookies_of_rules (number_rules n rules).0)
unfolding number_rules
number_rules-IsRun n [] = record { grows = omega arith; between = tt; apart = tt }
number_rules-IsRun n (r ∷ rules) =
    rule-IsRun r.has_rule n r (number_rules (suc n) rules) (number_rules n rules) refl
      (number_rules-IsRun (suc n) rules) (number_rules-IsRun n rules)

IsRun-append : (n m k : ℕ) (xs ys : List ℕ) → IsRun n m xs → IsRun m k ys → IsRun n k (xs ++ ys)
IsRun-append n m k xs ys p q = record {
  grows = omega (arith, p.grows, q.grows);
  between =
      All-append (λ c. (n ≤ c) × (c < k)) xs ys
        (All-map xs (λ x h. (h.0, omega (arith, h.1, q.grows))) p.between)
        (All-map ys (λ x h. (omega (arith, h.0, p.grows), h.1)) q.between);
  apart =
      NoDup-append xs ys p.apart q.apart
        (All-map xs (λ x h. All-map ys (λ y k e. omega (arith, h.1, k.0, e)) q.between) p.between);
}

number_acls-IsRun :
    (n : ℕ) (acls : AclsConfig)
    → IsRun n (number_acls n acls).1 (cookies_of_acls (number_acls n acls).0)
unfolding number_acls
number_acls-IsRun n [] = record { grows = omega arith; between = tt; apart = tt }
number_acls-IsRun n ((name, rules) ∷ acls) =
    let (numbered, m) = number_rules n rules in
    IsRun-append n m _ _ _ (number_rules-IsRun n rules) (number_acls-IsRun m acls)

-- All cookies are below the next one, and no two are the same.
pub record IsNumbered (s : Lists) : Type 0 where
  pub below : All (λ c. c < s.next_cookie) (cookies s.acl_configs)
  pub distinct : NoDup (cookies s.acl_configs)

-- Of two tables, whichever the test takes.
either :
    (P : Dict String AclsConfig → Type 0) (b : Bool) (xs ys : Dict String AclsConfig)
    → P xs
    → P ys
    → P (if b then xs else ys)
either P true xs ys p q = p
either P false xs ys p q = q

module _ (file : String) (acls : AclsConfig) where
  All-insert :
      (P : ℕ → Type 0) (configs : Dict String AclsConfig)
      → All P (cookies_of_acls acls)
      → All P (cookies configs)
      → All P (cookies (Dict.insert file acls configs))
  unfolding Dict.insert
  All-insert P [] p h = All-append P (cookies_of_acls acls) [] p tt
  All-insert P ((f, old) ∷ configs) p h =
      let had = cookies_of_acls old in
      let rest = All-right P had (cookies configs) h in
      either (λ c. All P (cookies c)) (file == f) ((file, acls) ∷ configs)
        ((f, old) ∷ Dict.insert file acls configs)
        (All-append P (cookies_of_acls acls) (cookies configs) p rest)
        (All-append P had (cookies (Dict.insert file acls configs))
          (All-left P had (cookies configs) h) (All-insert P configs p rest))

  NoDup-insert :
      (n m : ℕ) (configs : Dict String AclsConfig)
      → IsRun n m (cookies_of_acls acls)
      → All (λ c. c < n) (cookies configs)
      → NoDup (cookies configs)
      → NoDup (cookies (Dict.insert file acls configs))
  unfolding Dict.insert
  NoDup-insert n m [] v b h =
      NoDup-append (cookies_of_acls acls) [] v.apart tt
        (All-map (cookies_of_acls acls) (λ _ _. tt) v.between)
  NoDup-insert n m ((f, old) ∷ configs) v b h =
      let new = cookies_of_acls acls in
      let had = cookies_of_acls old in
      let below = All-left (λ c. c < n) had (cookies configs) b in
      let rest = All-right (λ c. c < n) had (cookies configs) b in
      let apart = NoDup-apart had (cookies configs) h in
      either (λ c. NoDup (cookies c)) (file == f) ((file, acls) ∷ configs)
        ((f, old) ∷ Dict.insert file acls configs)
        (NoDup-append new (cookies configs) v.apart (NoDup-right had (cookies configs) h) (
          All-map new (λ x k. All-map (cookies configs) (λ y l e. omega (arith, k.0, l, e)) rest)
            v.between))
        (NoDup-append had (cookies (Dict.insert file acls configs))
          (NoDup-left had (cookies configs) h)
          (NoDup-insert n m configs v rest (NoDup-right had (cookies configs) h))
          (All-both had
            (λ x l k.
              All-insert (λ w. w ≢ x) configs
                (All-map new (λ y j e. omega (arith, j.0, l, e)) v.between) k)
            below apart))

store_acls-IsNumbered :
    (acls : AclsConfig) (file : String) (s : Lists)
    → IsNumbered s
    → IsNumbered (store_acls acls file s)
store_acls-IsNumbered acls file s v =
    let (numbered, n) = number_acls s.next_cookie acls in
    let r = number_acls-IsRun s.next_cookie acls in
    record {
      below =
          All-insert file numbered (λ c. c < n) s.acl_configs
            (All-map (cookies_of_acls numbered) (λ c h. h.1) r.between)
            (All-map (cookies s.acl_configs) (λ c h. omega (arith, h, r.grows)) v.below);
      distinct = NoDup-insert file numbered s.next_cookie n s.acl_configs r v.below v.distinct;
    }

augment_acls_config-IsNumbered :
    (acls : Option AclsConfig) (file : String) (s : Lists)
    → IsNumbered s
    → IsNumbered (augment_acls_config acls file s).1
unfolding augment_acls_config
augment_acls_config-IsNumbered none file s v = v
augment_acls_config-IsNumbered (some []) file s v = v
augment_acls_config-IsNumbered (some (a ∷ acls)) file s v = stored s.next_cookie
  where
    stored : (n : ℕ) → IsNumbered (augment (a ∷ acls) file n s).1
    stored zero = v
    stored (suc n) = store_acls-IsNumbered (a ∷ acls) file s v

reload_include_file-IsNumbered :
    (file : String) (content : Option (Option AclsConfig)) (s : Lists)
    → IsNumbered s
    → IsNumbered (reload_include_file file content s).1
unfolding reload_include_file
reload_include_file-IsNumbered file none s v = v
reload_include_file-IsNumbered file (some acls) s v = augment_acls_config-IsNumbered acls file s v

reload_all-IsNumbered :
    (files : Files) (s : Lists) → IsNumbered s → IsNumbered (reload_all files s).1
unfolding reload_all
reload_all-IsNumbered [] s v = v
reload_all-IsNumbered ((file, content) ∷ files) s v =
    after-keeps IsNumbered (reload_include_file file content s) (λ _. reload_all files)
      (reload_include_file-IsNumbered file content s v) (λ _. reload_all-IsNumbered files)

-- Whatever the structural configuration and its included files hold, and whichever included files
-- are read again afterwards: no two rules of the lists that are kept have the same cookie, within a
-- file or across files, and the next cookie is greater than all of them.
pub reload_all-process_structural_config :
    (file : String) (includes : Files) (acls : Option AclsConfig) (changes : Files) (s : Lists)
    → IsNumbered (reload_all changes (process_structural_config file includes acls s).1).1
unfolding process_structural_config
reload_all-process_structural_config file includes acls changes s =
    let new : Lists = record { next_cookie = 1; acl_configs = [] } in
    reload_all-IsNumbered changes _ (
      after-keeps IsNumbered (reload_all includes new) (λ _. augment_acls_config acls file)
        (reload_all-IsNumbered includes new (record { below = tt; distinct = tt }))
        (λ _. augment_acls_config-IsNumbered acls file))
