-- ===== src/Domain/Condition/Expr.antt =====
-- Conditions and their evaluation: crates/core/src/domain/condition_dsl.rs. Texts are lists of bytes.
-- The values of serde_json and the floating-point numbers are parameters.
use Prim.Native.Char.{code}
use Prim.Native.String.{String}
use statuspage.Base.{
  ℕ, zero, suc, ◌+◌, ◌/◌, ◌%◌, Bool, true, false, not, ◌||◌, ◌&&◌, ◌==◌, ltb, leb, if◌then◌else◌,
  Option, none, some, is_some, unwrap_or, List, [], ◌∷◌, ◌++◌, any, length,
}
use statuspage.Domain.Condition.Glob.{Bytes, glob_match_bytes}

-- The bytes of an ASCII text.
abbrev pub bytes : String → Bytes
bytes String.[] = []
bytes (String.◌∷◌ c s) = code c ∷ bytes s

pub data Comparator : Type 0 where
  equal not_equal less_than greater_than less_or_equal greater_or_equal : Comparator

pub data ValueRef : Type 0 where
  status : ValueRef
  response_time : ValueRef
  body : Option Bytes → ValueRef
  dns_rcode : ValueRef
  connected : ValueRef
  cert_expiration : ValueRef
  ip : ValueRef
  literal : Bytes → ValueRef

pub data ConditionExpr : Type 0 where
  compare : ValueRef → Comparator → ValueRef → ConditionExpr
  len : ValueRef → Comparator → ℕ → ConditionExpr
  has : ValueRef → ConditionExpr
  pattern_of : ValueRef → Bytes → ConditionExpr
  any_of : ValueRef → List Bytes → ConditionExpr

-- The kinds of a `serde_json::Value`, a number by its text.
pub data JsonKind : Type 0 where
  null : JsonKind
  boolean : Bool → JsonKind
  number : Bytes → JsonKind
  string : Bytes → JsonKind
  container : JsonKind

-- `serde_json::Value` with `get`, `as_array` by its length, its kind and its text; and `f64` with its
-- parser and comparisons, of which `near` and `far` test the distance against `f64::EPSILON`.
pub record Libraries : Type 1 where
  pub Value : Type 0
  pub get_key : Value → Bytes → Option Value
  pub array_len : Value → Option ℕ
  pub kind : Value → JsonKind
  pub json_text : Value → Bytes
  pub F64 : Type 0
  pub parse_f64 : Bytes → Option F64
  pub near : F64 → F64 → Bool
  pub far : F64 → F64 → Bool
  pub f64_lt : F64 → F64 → Bool
  pub f64_le : F64 → F64 → Bool

digits : ℕ → ℕ → Bytes
digits zero n = []
digits (suc fuel) n =
    let rest = digits fuel (n / 10) in
    if ltb n 10 then (48 + n) ∷ [] else rest ++ (48 + n % 10) ∷ []

-- `to_string` of an unsigned number.
unfoldable pub decimal : ℕ → Bytes
unfolding digits
decimal n = digits (suc n) n

abbrev bool_text : Bool → Bytes
bool_text true = bytes "true"
bool_text false = bytes "false"

-- `split('.')`.
unfoldable pub split_dots : Bytes → List Bytes
split_dots [] = [] ∷ []
split_dots (c ∷ s) = elim (split_dots s) [
  | [] ↦ (c ∷ []) ∷ []
  | segment ∷ rest ↦ if c == b'.' then [] ∷ segment ∷ rest else (c ∷ segment) ∷ rest
]

unfoldable pub strip_prefix : Bytes → Bytes → Option Bytes
strip_prefix [] s = some s
strip_prefix (c ∷ prefix) [] = none
strip_prefix (c ∷ prefix) (d ∷ s) = if c == d then strip_prefix prefix s else none

-- `strip_suffix(')')`.
unfoldable pub strip_paren : Bytes → Option Bytes
strip_paren [] = none
strip_paren (c ∷ []) = if c == b')' then some [] else none
strip_paren (c ∷ d ∷ s) = elim (strip_paren (d ∷ s)) [ none ↦ none | some r ↦ some (c ∷ r) ]

-- Byte-wise order of texts.
unfoldable pub text_lt : Bytes → Bytes → Bool
text_lt s [] = false
text_lt [] (d ∷ t) = true
text_lt (c ∷ s) (d ∷ t) = ltb c d || (c == d && text_lt s t)

unfoldable pub same_text : Bytes → Bytes → Bool
same_text [] [] = true
same_text [] (d ∷ t) = false
same_text (c ∷ s) [] = false
same_text (c ∷ s) (d ∷ t) = c == d && same_text s t

-- A loop that is out of fuel reads as no match.
unfoldable pub glob_match : Bytes → Bytes → Bool
glob_match pattern text = unwrap_or (glob_match_bytes pattern text) false

unfoldable pub compare_numbers : ℕ → Comparator → ℕ → Bool
compare_numbers left equal right = left == right
compare_numbers left not_equal right = not (left == right)
compare_numbers left less_than right = ltb left right
compare_numbers left greater_than right = ltb right left
compare_numbers left less_or_equal right = leb left right
compare_numbers left greater_or_equal right = leb right left

unfoldable pub compare_texts : Bytes → Comparator → Bytes → Bool
unfolding same_text text_lt glob_match
compare_texts l equal r = same_text l r || glob_match r l
compare_texts l not_equal r = not (same_text l r)
compare_texts l less_than r = text_lt l r
compare_texts l greater_than r = text_lt r l
compare_texts l less_or_equal r = not (text_lt r l)
compare_texts l greater_or_equal r = not (text_lt l r)

module _ (lib : Libraries) where
  open lib use {
    Value, get_key, array_len, kind, json_text, F64, parse_f64, near, far, f64_lt, f64_le,
  }

  pub record ConditionContext : Type 0 where
    pub status_code : Option ℕ
    pub response_time_ms : Option ℕ
    pub body_value : Option Value
    pub dns_rcode_text : Option Bytes
    pub is_connected : Option Bool
    pub cert_expiration_ms : Option ℕ
    pub ip_text : Option Bytes

  unfoldable pub resolve_json_path : Value → List Bytes → Option Value
  resolve_json_path value [] = some value
  resolve_json_path value (segment ∷ rest) = elim (get_key value segment) [
    | none ↦ none
    | some inner ↦ resolve_json_path inner rest
  ]

  -- `null` is no value; an array or object is its JSON text.
  unfoldable pub value_text : Value → Option Bytes
  value_text value = elim (kind value) [
    | null ↦ none
    | boolean b ↦ some (bool_text b)
    | number n ↦ some n
    | string s ↦ some s
    | container ↦ some (json_text value)
  ]

  abbrev and_then : {A B : Type 0} → Option A → (A → Option B) → Option B
  and_then none f = none
  and_then (some a) f = f a

  abbrev map_some : {A B : Type 0} → (A → B) → Option A → Option B
  map_some f none = none
  map_some f (some a) = some (f a)

  -- A path `len(..)` asks for the length of an array.
  unfoldable pub resolve_json_path_str : Value → Bytes → Option Bytes
  unfolding resolve_json_path value_text split_dots strip_prefix strip_paren decimal
  resolve_json_path_str value path =
      elim (and_then (strip_prefix (bytes "len(") path) strip_paren) [
        | some inner ↦
            and_then (resolve_json_path value (split_dots inner))
              (λ arr. map_some decimal (array_len arr))
        | none ↦ and_then (resolve_json_path value (split_dots path)) value_text
      ]

  unfoldable pub resolve_value : ValueRef → ConditionContext → Option Bytes
  unfolding resolve_json_path_str
  resolve_value status ctx = map_some decimal ctx.status_code
  resolve_value response_time ctx = map_some decimal ctx.response_time_ms
  resolve_value (body none) ctx = map_some json_text ctx.body_value
  resolve_value (body (some path)) ctx =
      and_then ctx.body_value (λ value. resolve_json_path_str value path)
  resolve_value dns_rcode ctx = ctx.dns_rcode_text
  resolve_value connected ctx = map_some bool_text ctx.is_connected
  resolve_value cert_expiration ctx = map_some decimal ctx.cert_expiration_ms
  resolve_value ip ctx = ctx.ip_text
  resolve_value (literal s) ctx = some s

  unfoldable pub compare_numbers_f64 : F64 → Comparator → F64 → Bool
  compare_numbers_f64 left equal right = near left right
  compare_numbers_f64 left not_equal right = far left right
  compare_numbers_f64 left less_than right = f64_lt left right
  compare_numbers_f64 left greater_than right = f64_lt right left
  compare_numbers_f64 left less_or_equal right = f64_le left right
  compare_numbers_f64 left greater_or_equal right = f64_le right left

  abbrev is_equal : Comparator → Bool
  is_equal equal = true
  is_equal _ = false

  abbrev is_not_equal : Comparator → Bool
  is_not_equal not_equal = true
  is_not_equal _ = false

  -- Two texts that both parse as numbers are compared as numbers.
  abbrev compare_parsed : Option F64 → Option F64 → Bytes → Bytes → Comparator → Bool
  compare_parsed (some ln) (some rn) l r op = compare_numbers_f64 ln op rn
  compare_parsed (some ln) none l r op = compare_texts l op r
  compare_parsed none rn l r op = compare_texts l op r

  unfoldable pub compare_values : Option Bytes → Option Bytes → Comparator → Bool
  unfolding compare_numbers_f64 compare_texts
  compare_values none none op = is_equal op
  compare_values none (some r) op = is_not_equal op
  compare_values (some l) none op = is_not_equal op
  compare_values (some l) (some r) op = compare_parsed (parse_f64 l) (parse_f64 r) l r op

  unfoldable pub evaluate : ConditionExpr → ConditionContext → Bool
  unfolding resolve_value compare_values compare_numbers glob_match same_text
  evaluate (compare left cmp right) ctx =
      compare_values (resolve_value left ctx) (resolve_value right ctx) cmp
  evaluate (len of cmp value) ctx =
      compare_numbers (length (unwrap_or (resolve_value of ctx) [])) cmp value
  evaluate (has of) ctx = is_some (resolve_value of ctx)
  evaluate (pattern_of of pattern) ctx = glob_match pattern (unwrap_or (resolve_value of ctx) [])
  evaluate (any_of of values) ctx = any (same_text (unwrap_or (resolve_value of ctx) [])) values
