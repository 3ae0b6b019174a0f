-- ===== src/CodexBridge/Environment/Secrets.antt =====
-- What the child learns of the gateway's environment.
use code_harbor.CodexBridge.Environment.{
  any_text, ends_in_word, is_secret, process_env_with_tool_path, secret_names, secret_prefixes,
  secret_words, starts_with, tool_path,
}
use code_harbor.Common.{
  Bool, Bool-cases, List, Option, Option-cases, String, [], arith, false, falsy-empty,
  if◌then◌else◌, inl, inr, nat_eq, none, refl, some, string_eq, sym, true, truthy, ◌==◌, ◌||◌, ◌↔◌,
  ◌∷◌, ◌≡◌, ◌≢◌, ◌⊎◌,
}
use code_harbor.Common.JsMap.{JsMap, delete_where, get, get-set}
use code_harbor.Common.JsMap.Distinct.{HasDistinctKeys, get-delete_where, get-delete_where-none}
use code_harbor.Common.Text.{concat, ends_with}
use code_harbor.Common.Text.Ends.{Ends, Starts, ends_with-Ends, strip_prefix-Starts}

-- One of the texts has the property.
abbrev pub SomeText : (String → Type 0) → List String → Type 0
SomeText P [] = ⊥
SomeText P (t ∷ ts) = P t ⊎ SomeText P ts

-- The names that must not reach the child: by their start, as a whole, or by the word that they are or
-- that stands behind their last underscore or underscores.
pub data IsSecret (key : String) : Type 0 where
  by_start :
      SomeText
        (λ prefix. Starts prefix key)
        ("CODEHARBOR_" ∷ "RELAY_" ∷ "GATEWAY_AUTH_" ∷ "POSTGRES_" ∷ "PG" ∷ [])
      → IsSecret key
  by_name :
      SomeText
        (λ name. key ≡ name)
        ("ADMIN_TOKEN" ∷ "SESSION_SECRET" ∷ "DATABASE_URL" ∷ "REDIS_URL" ∷ [])
      → IsSecret key
  by_word :
      SomeText
        (λ word. (key ≡ word) ⊎ Ends (concat "_" word) key)
        ("API_KEY" ∷ "TOKEN" ∷ "SECRET" ∷ "PASSWORD" ∷ "PRIVATE_KEY" ∷ "ACCESS_KEY" ∷ [])
      → IsSecret key

any_text_iff :
    (p : String → Bool) (P : String → Type 0) (ts : List String)
    → ((t : String) → (p t ≡ true) ↔ P t)
    → (any_text p ts ≡ true) ↔ SomeText P ts
any_text_iff p P [] h = (λ e. cc, λ n. absurd n)
any_text_iff p P (t ∷ ts) h =
    let rest = any_text_iff p P ts h in
    (
      λ e. elim (Bool-cases (p t)) [
        | inl is ↦ inl ((h t).0 is)
        | inr isnt ↦ inr (rest.0 (rw isnt at e))
      ],
      λ n. elim n [ inl here ↦ rw ((h t).1 here) refl | inr there ↦ ground (arith, rest.1 there) ],
    )

or_iff : (a b : Bool) (A B : Type 0) → (a ≡ true) ↔ A → (b ≡ true) ↔ B → ((a || b) ≡ true) ↔ (A ⊎ B)
or_iff true b A B h k = (λ e. inl (h.0 refl), λ n. refl)
or_iff false b A B h k =
    (λ e. inr (k.0 e), λ n. elim n [ inl x ↦ absurd (cc (h.1 x)) | inr y ↦ k.1 y ])

is_secret_iff : (key : String) → (is_secret key ≡ true) ↔ IsSecret key
unfolding is_secret
is_secret_iff key =
    let starts =
      any_text_iff (λ p. starts_with p key) (λ p. Starts p key) secret_prefixes
        (λ p. strip_prefix-Starts p key) in
    let names =
      any_text_iff (λ n. key == n) (λ n. key ≡ n) secret_names (λ n. string_eq.beq_iff key n) in
    let words =
      any_text_iff (λ w. ends_in_word key w) (λ w. (key ≡ w) ⊎ Ends (concat "_" w) key) secret_words
        (λ w.
          or_iff (key == w) (ends_with (concat "_" w) key) (key ≡ w) (Ends (concat "_" w) key)
            (string_eq.beq_iff key w) (ends_with-Ends (concat "_" w) key)) in
    let front = or_iff _ _ _ _ starts names in
    let all = or_iff _ _ _ _ front words in
    (
      λ h. elim (all.0 h) [
        | inl early ↦ elim early [ inl x ↦ by_start x | inr x ↦ by_name x ]
        | inr x ↦ by_word x
      ],
      λ s.
          all.1 (elim s [ by_start x ↦ inl (inl x) | by_name x ↦ inl (inr x) | by_word x ↦ inr x ]),
    )

-- The gateway's own search path behind the tool directories, if it has one.
abbrev pub behind : String → Option String → String
behind delimiter none = ""
behind delimiter (some path) = if truthy path then concat delimiter path else ""

-- The tool directories in their order, and the gateway's own search path.
abbrev pub search_path : String → Option String → String
search_path delimiter path = concat "/opt/homebrew/bin" (
    concat delimiter (
      concat "/usr/local/bin" (
        concat delimiter (
          concat "/usr/bin" (
            concat delimiter (
              concat "/bin" (
                concat delimiter (
                  concat "/usr/sbin"
                    (concat delimiter (concat "/sbin" (behind delimiter path)))))))))))

tool_path-eq :
    (delimiter : String) (env : JsMap String String)
    → tool_path delimiter env ≡ search_path delimiter (get env "PATH")
tool_path-eq delimiter env = elim (Option-cases (get env "PATH")) [
  | inl none' ↦ rw none' refl
  | inr (p, found) ↦ elim (Bool-cases (truthy p)) [
    | inl there ↦ rw (found, there) refl
    | inr gone ↦ rw (found, falsy-empty p gone) refl
  ]
]

-- What the child sees under a name.
pub data Sees (delimiter : String) (env : JsMap String String) (key : String)
    : Option String → Type 0 where
  path : key ≡ "PATH" → Sees delimiter env key (some (search_path delimiter (get env "PATH")))
  hidden : key ≢ "PATH" → IsSecret key → Sees delimiter env key none
  passed : key ≢ "PATH" → ¬ IsSecret key → Sees delimiter env key (get env key)

get-delete_secrets :
    (env : JsMap String String) (key : String)
    → HasDistinctKeys env
    → get (delete_where (λ k v. is_secret k) env) key
      ≡ (if is_secret key then none else get env key)
get-delete_secrets env key d = elim (Option-cases (get env key)) [
  | inl none' ↦ ground (arith, none', get-delete_where-none (λ k v. is_secret k) env key none')
  | inr (v, found) ↦ ground (arith, found, get-delete_where (λ k v. is_secret k) env key v d found)
]

-- The child sees the six tool directories and behind them the gateway's own search path as `PATH`. Of
-- the other variables it sees none whose name starts with CODEHARBOR_, RELAY_, GATEWAY_AUTH_, POSTGRES_ or
-- PG, is ADMIN_TOKEN, SESSION_SECRET, DATABASE_URL or REDIS_URL, or is or ends, behind an underscore, in
-- API_KEY, TOKEN, SECRET, PASSWORD, PRIVATE_KEY or ACCESS_KEY; and it sees every other as it is.
pub get-process_env_with_tool_path :
    (delimiter : String) (env : JsMap String String) (key : String)
    → HasDistinctKeys env
    → Sees delimiter env key (get (process_env_with_tool_path delimiter env) key)
unfolding process_env_with_tool_path
get-process_env_with_tool_path delimiter env key d =
    let written =
      get-set (delete_where (λ k v. is_secret k) env) "PATH" key (tool_path delimiter env) in
    let left = get-delete_secrets env key d in
    elim (Bool-cases ("PATH" == key)) [
      | inl same ↦
          rw (written, same, tool_path-eq delimiter env)
            (path (sym ((string_eq.beq_iff "PATH" key).0 same)))
      | inr other ↦
          let named : key ≢ "PATH" = λ e. cc (other, (string_eq.beq_iff "PATH" key).1 (sym e)) in
          elim (Bool-cases (is_secret key)) [
            | inl secret ↦
                rw (written, other, left, secret) (hidden named ((is_secret_iff key).0 secret))
            | inr open' ↦
                rw (written, other, left, open')
                  (passed named (λ s. cc (open', (is_secret_iff key).1 s)))
          ]
    ]
