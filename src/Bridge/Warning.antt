-- ===== src/Bridge/Warning.antt =====
-- frontend/services/ConfigStore.cc: whether the running daemon loaded the file that is edited; and
-- frontend/main.cpp: the documents that say so.
--
-- `canonical` is std::filesystem::weakly_canonical, `none` where it reports an error; `transport`
-- is ControlClient::send.
use Prim.Native.String.{◌++◌ as str_append}
use text.Mathlib.TextLemmas.{append-eq-nil_iff}
use pointer_force.Prelude.{
  String, ◌≡◌, refl, sym, ap, ◌≢◌, ◌↔◌, ◌⊎◌, inl, inr, Bool, true, false, ◌||◌, Option, none, some,
  List, [], ◌∷◌, arith, eq_iff, if◌then◌else◌, ◌==◌, is_empty, Bool-cases, Outcome, returns, ◌>>=◌,
  string_eq, int_eq, nat_eq,
}
use pointer_force.Json.{Json, Bytes, IsBuilding, IsReadable}
use pointer_force.ConfigStore.{ReadResult, content, read}
use pointer_force.Control.{set_members, text_at}
use pointer_force.Control.Requests.{HasText}
use pointer_force.Control.Texts.{set_text}
use pointer_force.ControlClient.{Result, response}
use pointer_force.Bridge.{get, get_text, get_bool}
use pointer_force.Bridge.Relay.{HasBool}

-- ConfigStore::kConfigPath, which resolvePath returns
abbrev pub config_path : String
config_path = "config/pointerforce.json"

abbrev pub both_same : Option String → Option String → Bool
both_same (some a) (some b) = a == b
both_same _ _ = false

unfoldable pub same_path : (String → Option String) → String → String → Bool
same_path canonical a b = if a == b then true else both_same (canonical a) (canonical b)

abbrev warning_start : String
warning_start = "the running daemon loaded its config from '"

abbrev pub warning_text : String → String
warning_text daemon_path = str_append warning_start (
    str_append daemon_path (
      str_append "', but this editor reads/writes '" (
        str_append config_path (
          str_append
            "'. Changes made here won't take effect on reload until the daemon is started with '-c "
            (str_append config_path "' (or an absolute path to the same file).")))))

module _ (J : Json) (canonical : String → Option String)
    (transport : J.Value → Result J.Value) where
  open J use {Value, set_member, null_value, of_bool, of_string}

  unfoldable pub daemon_reported_path : Outcome String
  daemon_reported_path = do
    req ← set_member null_value "cmd" (of_string "status")
    elim (transport req) [
      | response r ↦ do ok ← get_bool J r "ok"; if ok then get_text J r "config" "" else returns ""
      | _ ↦ returns ""
    ]

  unfoldable pub daemon_path_warning : Outcome String
  daemon_path_warning = do
    daemon_path ← daemon_reported_path
    returns (
        if is_empty daemon_path
        then ""
        else if same_path canonical daemon_path config_path
        then ""
        else warning_text daemon_path)

  unfoldable pub attach_config_warning : Value → Outcome Value
  attach_config_warning j = do
    warning ← daemon_path_warning
    if is_empty warning then returns j else set_member j "warning" (of_string warning)

  abbrev config_document : ReadResult Value → Outcome (Option Value)
  config_document (content cfg) = do
    j ← set_members J (("path", of_string config_path) ∷ ("config", cfg) ∷ []) null_value
    j' ← attach_config_warning j
    returns (some j')
  config_document _ = returns none

  -- GET /api/config: the document, or `none` for the error 500 if the file cannot be read.
  unfoldable pub get_config : (String → Option Bytes) → Outcome (Option Value)
  get_config files = config_document (read J files config_path)

  -- What an edit that was saved is answered with.
  unfoldable pub edit_document : List (String × Value) → Outcome Value
  edit_document fields = do
    j ← set_members J (("ok", of_bool true) ∷ fields) null_value
    attach_config_warning j

-- The two paths name one file: they are the same text, or both resolve, to one path.
abbrev pub NamesOne : (String → Option String) → String → String → Type 0
NamesOne canonical a b = (a ≡ b) ⊎ ((c : String) × (canonical a ≡ some c) × (canonical b ≡ some c))

both_same_iff :
    (p q : Option String) → (both_same p q ≡ true) ↔ ((c : String) × (p ≡ some c) × (q ≡ some c))
both_same_iff none q = (λ h. cc, λ (c, e, f). cc)
both_same_iff (some a) none = (λ h. cc, λ (c, e, f). cc)
both_same_iff (some a) (some b) = (
  (λ h. (a, refl, ap some (sym ((eq_iff a b).0 h)))),
  λ (c, e, f). (eq_iff a b).1 (ground (arith, e, f)),
)

same_path-NamesOne :
    (canonical : String → Option String) (a b : String)
    → (same_path canonical a b ≡ true) ↔ NamesOne canonical a b
unfolding same_path
same_path-NamesOne canonical a b = elim (Bool-cases (a == b)) [
  | inl e ↦ rw e ((λ h. inl ((eq_iff a b).0 e)), λ h. refl)
  | inr e ↦ rw e (
    (λ h. inr ((both_same_iff (canonical a) (canonical b)).0 h)),
    λ h. elim h [
      | inl same ↦ absurd (ground (arith, e, eq_iff a b, same))
      | inr c ↦ (both_same_iff (canonical a) (canonical b)).1 c
    ],
  )
]

quiet_path :
    (canonical : String → Option String) (path : String)
    → (is_empty path || same_path canonical path config_path) ≡ true
    → (path ≡ "") ⊎ NamesOne canonical path config_path
quiet_path canonical path h = elim (Bool-cases (is_empty path)) [
  | inl e ↦ inl ((eq_iff path "").0 e)
  | inr e ↦ inr ((same_path-NamesOne canonical path config_path).0 (rw e at h))
]

loud_path :
    (canonical : String → Option String) (path : String)
    → (is_empty path || same_path canonical path config_path) ≡ false
    → (path ≢ "") × ¬ NamesOne canonical path config_path
loud_path canonical path h = elim (Bool-cases (is_empty path)) [
  | inl e ↦ absurd (ground (arith, e, h))
  | inr e ↦ (
    (λ none_given. absurd (ground (arith, e, eq_iff path "", none_given))),
    λ one.
        let same = (same_path-NamesOne canonical path config_path).1 one in
        absurd (ground (arith, e, h, same)),
  )
]

start_not_empty : ◌≢◌ {A = String} warning_start ""
start_not_empty = ground (arith, eq_iff warning_start "")

module _ (J : Json) (building : IsBuilding J) (readable : IsReadable J)
    (canonical : String → Option String) (transport : J.Value → Result J.Value) where
  open J use {Value, at, set_member, is_object, null_value, of_bool, of_string}

  -- The path that the daemon reports, if it answers each status request by this reply.
  reported :
      (v : Value) (path : String)
      → ((req : Value) → HasText J req "cmd" "status" → transport req ≡ response v)
      → HasBool J v "ok" true
      → HasText J v "config" path
      → daemon_reported_path J canonical transport ≡ returns path
  unfolding daemon_reported_path get_bool get_text get text_at
  reported v path answers ok said =
      let (req, e, _, cmd, _) = set_text J building readable null_value "cmd" "status" (inr refl) in
      ground (arith, e, answers req cmd, ok, said, readable.as_bool-of_bool true)

  warned :
      (v : Value) (path : String)
      → ((req : Value) → HasText J req "cmd" "status" → transport req ≡ response v)
      → HasBool J v "ok" true
      → HasText J v "config" path
      → daemon_path_warning J canonical transport
        ≡ returns (
            if is_empty path || same_path canonical path config_path then "" else warning_text path)
  unfolding daemon_path_warning
  warned v path answers ok said =
      rw (reported v path answers ok said)
        (elim (Bool-cases (is_empty path)) [ inl e ↦ rw e refl | inr e ↦ rw e refl ])

  warned_text : (path : String) → is_empty (warning_text path) ≡ false
  warned_text path = elim (Bool-cases (is_empty (warning_text path))) [
    | inl e ↦ absurd (start_not_empty (append-eq-nil_iff.0 ((eq_iff (warning_text path) "").0 e)).0)
    | inr e ↦ e
  ]

  -- What the page gets of a document for a path that the daemon reports: the document as it is, if
  -- the path is empty or names the edited file, and else one with the warning.
  abbrev IsWarned : String → Value → Value → Type 0
  IsWarned path j j' =
      (((path ≡ "") ⊎ NamesOne canonical path config_path) × (j' ≡ j))
      ⊎ ((path ≢ "")
          × (¬ NamesOne canonical path config_path)
          × HasText J j' "warning" (warning_text path))

  -- The page is warned exactly if the path that the daemon reports is not empty and is another file
  -- than the edited one as the bridge resolves the two, in its own directory, where equal names are
  -- one file even if the daemon runs in another directory; the members of the document stay.
  pub attached :
      (v j : Value) (path : String)
      → ((req : Value) → HasText J req "cmd" "status" → transport req ≡ response v)
      → HasBool J v "ok" true
      → HasText J v "config" path
      → is_object j ≡ true
      → (j' : Value) × (attach_config_warning J canonical transport j ≡ returns j')
        × ((k : String) → (k == "warning") ≡ false → at j' k ≡ at j k)
        × IsWarned path j j'
  unfolding attach_config_warning text_at
  attached v j path answers ok said object =
      let r = warned v path answers ok said in
      elim (Bool-cases (is_empty path || same_path canonical path config_path)) [
        | inl quiet ↦
            (j, rw (r, quiet) refl, (λ k n. refl), inl (quiet_path canonical path quiet, refl))
        | inr loud ↦
            let (j', e, o, there, others) =
              building.set_member-Returns j "warning" (of_string (warning_text path))
                (inl object) in
            let (named, _) = readable.is_member-set_member j "warning" _ j' (inl object) e in
            let (given, other) = loud_path canonical path loud in
            (
              j',
              rw (r, loud, warned_text path, e) refl,
              others,
              inr (
                given,
                other,
                (named, rw there (readable.as_string-of_string (warning_text path))),
              ),
            )
      ]
