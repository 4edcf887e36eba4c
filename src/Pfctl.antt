-- ===== src/Pfctl.antt =====
-- src/pfctl.cpp: the requests that the command line makes.
pub mod Listing
pub mod Printing
pub mod Program
pub mod Requests
use Prim.Native.String.{◌++◌ as str_append}
use pointer_force.Prelude.{
  ℕ, String, ◌≡◌, refl, sym, ap, subst, ◌∙◌, ◌≢◌, ◌⊎◌, inl, inr, Bool, true, false, not, ◌&&◌,
  Option, none, some, List, [], ◌∷◌, ◌++◌, arith, eq_iff, nat_beq, if◌then◌else◌, ◌==◌, is_empty,
  Bool-cases, Option-cases, length, Outcome, returns, throws, ◌>>=◌, string_eq, ◌+◌, ◌<◌,
  append-nil, suc, ◌||◌, is_negative,
}
use pointer_force.Json.{Json, Bytes}
use pointer_force.Control.{set_members}

-- What a command line asks for: the usage, an error in the arguments, or a request.
pub data Request (V : Type 0) : Type 0 where
  shows_usage misused : Request V
  sends : V → Request V

-- full_cmd += ' '; full_cmd += argv[i], for the arguments left
unfoldable pub join : String → List String → String
join full_cmd [] = full_cmd
join full_cmd (arg ∷ args) = join (str_append (str_append full_cmd " ") arg) args

-- std::string buf, up to a newline or the end of the stream
unfoldable pub read_line : Bytes → Bytes
read_line [] = []
read_line (c ∷ cs) = let rest = read_line cs in if nat_beq c 10 then [] else c ∷ rest

module _ (J : Json) where
  open J use {Value, parse, at, set_member, as_bool, as_string, object_value, of_string}

  -- if (cmd == "bindings" && argc >= 3)
  unfoldable pub with_filter : String → List String → Value → Outcome Value
  with_filter cmd [] req = returns req
  with_filter cmd (device ∷ args) req =
      if cmd == "bindings" then set_member req "device" (of_string device) else returns req

  unfoldable pub bind_fields : List String → Value → Outcome (Request Value)
  bind_fields (device ∷ key ∷ arg ∷ args) req = do
    req' ←
        set_members J
          (("device", of_string device)
            ∷ ("key", of_string key)
            ∷ ("command", of_string (join arg args))
            ∷ [])
          req
    returns (sends req')
  bind_fields _ req = returns misused

  unfoldable pub unbind_fields : List String → Value → Outcome (Request Value)
  unbind_fields (device ∷ key ∷ args) req = do
    req' ← set_members J (("device", of_string device) ∷ ("key", of_string key) ∷ []) req
    returns (sends req')
  unbind_fields _ req = returns misused

  -- The request of the arguments after the program's name.
  unfoldable pub build_request : List String → Outcome (Request Value)
  build_request [] = returns shows_usage
  build_request (cmd ∷ args) = do
    req ← set_member object_value "cmd" (of_string cmd)
    req' ← with_filter cmd args req
    if cmd == "bind"
        then bind_fields args req'
        else if cmd == "unbind"
        then unbind_fields args req'
        else returns (sends req')
