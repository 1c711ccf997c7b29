-- ===== src/Http/Types.antt =====
-- src/HTTP/httptypes: methods, body types and packets.
use components_network.Prelude.{
  ℕ, ◌+◌, ◌≡◌, ◌↔◌, Key, nat_beq, refl, ◌⊎◌, String, string_key, ◌==◌, Bool, true, false, arith,
  if◌then◌else◌,
}
use text.Mathlib.TextEquality.{eq_iff}

-- An `int` may hold a value that is no enumerator.
pub data MethodType : Type 0 where
  get put post delete : MethodType
  other : ℕ → MethodType

-- The value of the enumeration.
abbrev pub method_code : MethodType → ℕ
method_code get = 0
method_code put = 1
method_code post = 2
method_code delete = 3
method_code (MethodType.other n) = n + 4

pub method_code_iff :
    (a b : MethodType) → (nat_beq (method_code a) (method_code b) ≡ true) ↔ (a ≡ b)
method_code_iff a b = ground arith

instance abbrev pub method_key : Key MethodType
method_key = record {
  same = λ a b. nat_beq (method_code a) (method_code b);
  same_iff = method_code_iff;
}

pub data BodyType : Type 0 where
  undefined json html bytes : BodyType
  other : ℕ → BodyType

pub record Packet : Type 0 where
  pub target : String
  pub is_file : Bool
  pub file_savepath : String
  pub body_type : BodyType
  pub acceptable_type : BodyType
  pub body : String
  pub status_code : ℕ  -- unsigned int

-- A default-constructed packet.
abbrev pub fresh : Packet
fresh = record {
  target = "/";
  is_file = false;
  file_savepath = "";
  body_type = undefined;
  acceptable_type = undefined;
  body = "";
  status_code = 0;
}

-- `Packet::toString` and `Packet::fromString`.
unfoldable pub to_string : BodyType → String
to_string undefined = "text/plain"
to_string json = "application/json"
to_string html = "text/html"
to_string bytes = "application/octet-stream"
to_string (BodyType.other n) = "text/plain"

unfoldable pub from_string : String → BodyType
from_string btype =
    if btype == "application/json"
    then json
    else (if btype == "text/html"
        then html
        else (if btype == "application/octet-stream" then bytes else undefined))

-- `toString(MethodType)`.
unfoldable pub method_to_string : MethodType → String
method_to_string get = "GET"
method_to_string put = "PUT"
method_to_string post = "POST"
method_to_string delete = "DELETE"
method_to_string (MethodType.other n) = ""

-- Boost.Beast's text for a status.
abbrev pub Reasons : Type 0
Reasons = ℕ → String

unfoldable pub create_error_packet : Reasons → ℕ → Packet
create_error_packet reason status = record fresh {
  body_type = undefined;
  body = reason status;
  status_code = status;
}

abbrev pub named : BodyType → BodyType
named (BodyType.other n) = undefined
named b = b

-- The text of a body type is read back as that type, and as `Undefined` if the value is no
-- enumerator.
pub from_string-to_string-named : (b : BodyType) → from_string (to_string b) ≡ named b
unfolding from_string to_string
from_string-to_string-named undefined = refl
from_string-to_string-named json = refl
from_string-to_string-named html = refl
from_string-to_string-named bytes = refl
from_string-to_string-named (BodyType.other n) = refl

-- Any text is read as `Undefined`, or as the type whose text it is.
pub from_string_sound : (s : String) → (from_string s ≡ undefined) ⊎ (to_string (from_string s) ≡ s)
unfolding from_string to_string
from_string_sound s =
    ground (
      arith,
      eq_iff s "application/json",
      eq_iff s "text/html",
      eq_iff s "application/octet-stream",
    )
