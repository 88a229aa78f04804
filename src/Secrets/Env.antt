-- ===== src/Secrets/Env.antt =====
-- What SpawnEnv hands to a child process.
use criteria_go_adapter_sdk.Base.{
  String, ◌<>◌, ◌≡◌, refl, ◌≢◌, ◌∙◌, sym, ap, ◌↔◌, inl, inr, true, not, ◌&&◌, ◌||◌, List, [], ◌∷◌,
  Option, none, some, Result, ok, err, lookup, if◌then◌else◌, arith, eq_iff, All, ◌==◌, contains,
  Bool-cases, String-cases,
}
use criteria_go_adapter_sdk.Base.Sort.{Ascending, sort_strings-Ascending, contains-sort_strings}
use criteria_go_adapter_sdk.Secrets.{
  Secrets, Spawn, add_env, spawn_loop, spawn_result, or_empty, spawn_env,
}

abbrev pub add_variable : String → Option String → List String → List String
add_variable name none env = env
add_variable name (some v) env = (name <> "=" <> v) ∷ env

-- The variables of the delivered ones among the names, in the order of the names.
abbrev pub delivered : List (String × String) → List String → List String
delivered values [] = []
delivered values (name ∷ names) = add_variable name (lookup name values) (delivered values names)

abbrev pub undeclared_of : List String → List String → List String
undeclared_of declared [] = []
undeclared_of declared (name ∷ names) =
    let rest = undeclared_of declared names in if contains name declared then rest else name ∷ rest

-- A text that names exactly those of the requested names that the adapter did not declare.
pub record Lists (declared names bad : List String) : Type 0 where
  pub sorted : Ascending bad
  pub members : (n : String) → contains n bad ≡ (contains n names && not (contains n declared))
  pub some_name : bad ≢ []

add_env-undeclared :
    (name : String) (o : Option String) (rest : Spawn)
    → (add_env name o rest).undeclared ≡ rest.undeclared
add_env-undeclared name none rest = refl
add_env-undeclared name (some v) rest = refl

-- The name itself counts as one of the names exactly where it is not declared.
member_step :
    (name n : String) (declared names bad : List String)
    → contains n bad ≡ (contains n names && not (contains n declared))
    → contains n (if contains name declared then bad else name ∷ bad)
      ≡ ((name == n || contains n names) && not (contains n declared))
member_step name n declared names bad h = elim (String-cases name n) [
  | inl (e, p) ↦ ground (arith, ap (λ x. contains x declared) p)
  | inr (e, p) ↦ ground arith
]

undeclared_lem :
    (s : Secrets) (names : List String)
    → (spawn_loop s names).undeclared ≡ undeclared_of s.declared names
undeclared_lem s [] = refl
undeclared_lem s (name ∷ names) = elim (Bool-cases (contains name s.declared)) [
  | inl e ↦
      rw e (
        add_env-undeclared name (lookup name s.values) (spawn_loop s names)
        ∙ undeclared_lem s names)
  | inr e ↦ rw e (ap (λ bad. name ∷ bad) (undeclared_lem s names))
]

undeclared_of-members :
    (declared names : List String) (n : String)
    → contains n (undeclared_of declared names) ≡ (contains n names && not (contains n declared))
undeclared_of-members declared [] n = refl
undeclared_of-members declared (name ∷ names) n =
    member_step name n declared names (undeclared_of declared names)
      (undeclared_of-members declared names n)

add_env-env :
    (name : String) (o : Option String) (rest : Spawn)
    → (add_env name o rest).env ≡ add_variable name o rest.env
add_env-env name none rest = refl
add_env-env name (some v) rest = refl

env_lem :
    (s : Secrets) (names : List String)
    → undeclared_of s.declared names ≡ []
    → (spawn_loop s names).env ≡ delivered s.values names
env_lem s [] h = refl
env_lem s (name ∷ names) h = elim (Bool-cases (contains name s.declared)) [
  | inl e ↦ rw e (
      add_env-env name (lookup name s.values) (spawn_loop s names)
      ∙ ap (add_variable name (lookup name s.values)) (env_lem s names (ground arith)))
  | inr e ↦ ground arith
]

undeclared-All :
    (declared names : List String)
    → (undeclared_of declared names ≡ []) ↔ All (λ n. contains n declared ≡ true) names
undeclared-All declared [] = ((λ _. tt), λ _. refl)
undeclared-All declared (n ∷ ns) =
    let (to, from) = undeclared-All declared ns in
    ((λ h. ground (arith, to)), λ h. ground (arith, from h.1))

-- What SpawnEnv answers: a list with the names' variables where each name is declared, or a text.
abbrev pub Answers : Secrets → List String → Result (List String) (List String) → Type 0
Answers s names (ok env) =
    All (λ n. contains n s.declared ≡ true) names × (env ≡ delivered s.values names)
Answers s names (err bad) = Lists s.declared names bad

answer_lem :
    (s : Secrets) (names bad env : List String)
    → bad ≡ undeclared_of s.declared names
    → (undeclared_of s.declared names ≡ [] → env ≡ delivered s.values names)
    → Answers s names (spawn_result bad env)
answer_lem s names [] env u e = ((undeclared-All s.declared names).0 (sym u), e (sym u))
answer_lem s names (n ∷ ns) env u e = record {
  sorted = sort_strings-Ascending (n ∷ ns);
  members = λ m.
      contains-sort_strings m (n ∷ ns)
      ∙ (ap (contains m) u ∙ undeclared_of-members s.declared names m);
  some_name = λ p.
      ground
        (arith, sym (contains-sort_strings n (n ∷ ns)) ∙ ap (contains n) p, (eq_iff n n).1 refl);
}

-- SpawnEnv on any view, nil or not: it succeeds only if every name is declared, and then gives one
-- NAME=value for each name whose value was delivered, in the order of the names; it fails with the
-- names, in ascending order, that were asked for and not declared, of which there is then at least one.
pub spawn_env-Answers :
    (s : Option Secrets) (names : List String) → Answers (or_empty s) names (spawn_env s names)
unfolding spawn_env
spawn_env-Answers s names =
    let r = spawn_loop (or_empty s) names in
    answer_lem (or_empty s) names r.undeclared r.env (undeclared_lem (or_empty s) names)
      (env_lem (or_empty s) names)
