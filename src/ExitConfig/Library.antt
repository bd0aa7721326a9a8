-- ===== src/ExitConfig/Library.antt =====
-- What mihomo-exit-config.py uses of Python's library, and the values of its dictionaries.
use gpn.Prelude.{
  ℕ, Bool, true, false, not, List, [], ◌∷◌, Option, none, some, is_empty, ◌==◌, ℤ, pos, negsuc,
}
use gpn.Prelude.Dict.{Dict}
use gpn.Text.{Text, Unicode}
use gpn.Text.Number.{int_of}

-- A value that is read from JSON or written as YAML. `other` is a list, an object or a real
-- of the JSON text; `single` is a list with one item.
mutual
  pub data Value : Type 0 where
    null : Value
    flag : Bool → Value
    number : ℤ → Value
    text : Text → Value
    other : Text → Value
    single : Value → Value
    table : Fields → Value

  pub data Fields : Type 0 where
    nil : Fields
    entry : Text → Value → Fields → Fields

-- the result of `urlparse`; `port` is `none` where reading it raises a `ValueError`
pub record Uri : Type 0 where
  pub scheme : Text
  pub hostname : Option Text
  pub username : Option Text
  pub password : Option Text
  pub port : Option (Option ℕ)
  pub query : Text

-- `none` is an exception. A value of `parse_qs` is a list that is not empty, the decoders give
-- UTF-8 text, and `loads` gives an object or, as the inner `none`, another value.
pub record Library : Type 0 where
  pub urlparse : Text → Option Uri
  pub parse_qs : Text → Dict (Text × List Text)
  pub unquote : Text → Text
  pub urlsafe_b64decode : Text → Option Text
  pub b64decode : Text → Option Text
  pub loads : Text → Option (Option (Dict Value))
  pub is_address : Value → Bool
  pub other_is_true : Text → Bool
  pub other_int : Text → Option ℤ
  pub other_str : Text → Text

abbrev pub value_of : Option Text → Value
value_of none = null
value_of (some t) = text t

-- `o or v`
abbrev pub or_value : Option Text → Value → Value
or_value none v = v
or_value (some []) v = v
or_value (some (c ∷ s)) v = text (c ∷ s)

abbrev pub or_text : Option Text → Text → Text
or_text none t = t
or_text (some []) t = t
or_text (some (c ∷ s)) t = c ∷ s

-- `q.get(k, default)`
abbrev pub get_or : Option Text → Text → Text
get_or none t = t
get_or (some s) t = s

module _ (lib : Library) where
  -- the truth value of a value
  unfoldable pub is_true : Value → Bool
  is_true null = false
  is_true (flag b) = b
  is_true (number (pos n)) = not (n == 0)
  is_true (number (negsuc n)) = true
  is_true (text t) = not (is_empty t)
  is_true (other t) = lib.other_is_true t
  is_true (single v) = true
  is_true (table nil) = false
  is_true (table (entry k v d)) = true

module _ ⦃u : Unicode⦄ (lib : Library) where
  -- `int(v)`
  unfoldable pub int_value : Value → Option ℤ
  unfolding int_of
  int_value (flag true) = some (pos 1)
  int_value (flag false) = some (pos 0)
  int_value (number z) = some z
  int_value (text t) = int_of t
  int_value (other t) = lib.other_int t
  int_value _ = none
