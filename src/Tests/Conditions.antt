-- ===== src/Tests/Conditions.antt =====
-- The theorems on conditions at concrete inputs.
use statuspage.Base.{
  ℕ, ◌≡◌, ◌≢◌, ◌↔◌, ◌⊎◌, refl, true, ◌==◌, ltb, leb, not, none, some, [], ◌∷◌, any,
}
use statuspage.Domain.Condition.Glob.{Bytes, globs, glob_match_bytes}
use statuspage.Domain.Condition.Decides.{glob_match-globs}
use statuspage.Domain.Condition.Equal.{evaluate-meaning}
use statuspage.Domain.Condition.Expr.{
  bytes, equal, not_equal, status, ip, body, literal, compare, len, pattern_of, any_of, Libraries,
  string, ConditionContext, resolve_value, evaluate, decimal,
}

-- A body is a text, and no text is a number.
abbrev plain : Libraries
plain = record {
  Value = Bytes;
  get_key = λ value key. none;
  array_len = λ value. none;
  kind = λ value. string value;
  json_text = λ value. value;
  F64 = ℕ;
  parse_f64 = λ s. none;
  near = λ a b. a == b;
  far = λ a b. not (a == b);
  f64_lt = λ a b. ltb a b;
  f64_le = λ a b. leb a b;
}

abbrev answer : ConditionContext plain
answer = record {
  status_code = some 204;
  response_time_ms = some 35;
  body_value = some (bytes "all systems go");
  dns_rcode_text = none;
  is_connected = some true;
  cert_expiration_ms = none;
  ip_text = some (bytes "10.0.0.7");
}

status_is_any : evaluate plain (any_of status (bytes "200" ∷ bytes "204" ∷ [])) answer ≡ true
unfolding evaluate any decimal
status_is_any = refl

body_has_length : evaluate plain (len (body none) equal 14) answer ≡ true
unfolding evaluate
body_has_length = refl

back_to_star : glob_match_bytes (bytes "a*ab?") (bytes "aababc") ≡ some true
unfolding glob_match_bytes
back_to_star = refl

glob_match-globs_example :
    glob_match_bytes (bytes "10.*.?") (bytes "10.0.0.7")
    ≡ some (globs (bytes "10.*.?") (bytes "10.0.0.7"))
glob_match-globs_example =
    glob_match-globs (bytes "10.*.?") (bytes "10.0.0.7")
      (refl, (refl, (refl, (refl, (refl, (refl, (refl, (refl, tt))))))))

evaluate-meaning_example :
    ((evaluate plain (compare ip equal (literal (bytes "10.*"))) answer ≡ true)
      ↔ ((bytes "10.0.0.7" ≡ bytes "10.*") ⊎ (globs (bytes "10.*") (bytes "10.0.0.7") ≡ true)))
    × ((evaluate plain (compare ip not_equal (literal (bytes "10.*"))) answer ≡ true)
        ↔ (bytes "10.0.0.7" ≢ bytes "10.*"))
    × (evaluate plain (pattern_of ip (bytes "10.*")) answer
        ≡ globs (bytes "10.*") (bytes "10.0.0.7"))
unfolding resolve_value
evaluate-meaning_example =
    evaluate-meaning plain answer ip (literal (bytes "10.*")) (bytes "10.0.0.7") (bytes "10.*") refl
      refl refl (refl, (refl, (refl, (refl, (refl, (refl, (refl, (refl, tt))))))))
