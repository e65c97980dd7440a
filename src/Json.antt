-- ===== src/Json.antt =====
-- The values that Python's `json` module yields, with the tests and look-ups that the code makes on
-- them. `type(x) is int` tells an integer from a Boolean and from a float.
use ai_protocol.Base.{
  str_eq, if◌then◌else◌, ℕ, suc, String, Bool, true, false, not, ◌&&◌, Option, none, some, List, [],
  ◌∷◌,
}
use ai_protocol.Base.Int.{ℤ, pos, leb_ℤ}

-- A binary float: finite values are `mantissa * 2 ^ exponent`.
pub data Float : Type 0 where
  finite : ℤ → ℤ → Float
  infinite : Bool → Float
  not_a_number : Float

mutual
  pub data Json : Type 0 where
    null : Json
    bool : Bool → Json
    int : ℤ → Json
    float : Float → Json
    str : String → Json
    arr : Items → Json
    obj : Fields → Json

  pub data Items : Type 0 where
    nil : Items
    cons : Json → Items → Items

  -- The keys of a `dict` differ, so the first entry of a key is its only one.
  pub data Fields : Type 0 where
    end : Fields
    field : String → Json → Fields → Fields

abbrev pub elements : Items → List Json
elements nil = []
elements (cons v vs) = v ∷ elements vs

abbrev pub lookup : String → Fields → Option Json
lookup k end = none
lookup k (field j v fs) = let rest = lookup k fs in if str_eq j k then some v else rest

abbrev pub size : Fields → ℕ
size end = 0
size (field k v fs) = suc (size fs)

-- `v.get(k)` where `v` is known to be a dict; no other value has an entry.
abbrev pub get : Json → String → Option Json
get (obj fs) k = lookup k fs
get v k = none

abbrev pub is_obj : Option Json → Bool
is_obj (some (obj fs)) = true
is_obj o = false

abbrev pub is_arr : Option Json → Bool
is_arr (some (arr vs)) = true
is_arr o = false

abbrev pub is_str : Option Json → Bool
is_str (some (str s)) = true
is_str o = false

-- `type(o) is int`
abbrev pub is_int : Option Json → Bool
is_int (some (int n)) = true
is_int o = false

abbrev pub is_bool : Option Json → Bool
is_bool (some (bool b)) = true
is_bool o = false

abbrev pub is_null : Option Json → Bool
is_null none = true
is_null (some null) = true
is_null o = false

-- `isinstance(o, str) and o`
abbrev pub is_name : Option Json → Bool
is_name (some (str s)) = not (str_eq s "")
is_name o = false

-- `o == s` for a text `s`
abbrev pub eq_str : Option Json → String → Bool
eq_str (some (str t)) s = str_eq t s
eq_str o s = false

-- `type(o) is int and low <= o <= high`
abbrev pub int_within : ℤ → ℤ → Option Json → Bool
int_within low high (some (int n)) = leb_ℤ low n && leb_ℤ n high
int_within low high o = false

-- `type(o) is int and low <= o`
abbrev pub int_at_least : ℤ → Option Json → Bool
int_at_least low (some (int n)) = leb_ℤ low n
int_at_least low o = false

-- The value of an integer entry, and the text of a textual one, that was tested before.
abbrev pub int_of : Option Json → ℤ
int_of (some (int n)) = n
int_of o = pos 0

abbrev pub str_of : Option Json → String
str_of (some (str s)) = s
str_of o = ""

abbrev pub items_of : Option Json → Items
items_of (some (arr vs)) = vs
items_of o = nil

abbrev pub value_of : Option Json → Json
value_of (some v) = v
value_of none = null

-- `a == b` of two optional texts; the only other value that occurs is absence.
abbrev pub same_entry : Option Json → Option Json → Bool
same_entry none none = true
same_entry (some (str a)) (some (str b)) = str_eq a b
same_entry a b = false
