-- ===== src/Domain/Condition/Glob.antt =====
-- The glob match on bytes of crates/core/src/domain/condition_dsl.rs, and what a glob means.
use statuspage.Base.{
  ℕ, zero, suc, ◌+◌, ◌*◌, Bool, true, false, ◌||◌, ◌&&◌, ◌==◌, if◌then◌else◌, Option, none, some,
  List, [], ◌∷◌, length,
}

abbrev pub Bytes : Type 0
Bytes = List ℕ

abbrev pub star : ℕ
star = b'*'

abbrev pub any_byte : ℕ
any_byte = b'?'

-- The loop that skips the stars at the end of the pattern.
unfoldable pub only_stars : Bytes → Bool
only_stars [] = true
only_stars (c ∷ p) = c == star && only_stars p

-- The pattern behind the last star, and the text at which it stood: `star_pi` and `star_ti`.
abbrev pub Saved : Type 0
Saved = Option (Bytes × Bytes)

-- A mismatch: the saved star takes one byte more.
unfoldable pub retry : (Bytes → Bytes → Saved → Option Bool) → Saved → Option Bool
retry continue none = some false
retry continue (some (q, [])) = continue q [] (some (q, []))
retry continue (some (q, b ∷ s)) = continue q s (some (q, s))

-- The main loop, with the rest of the pattern and of the text in place of `pi` and `ti`. `none` is a
-- loop that is out of fuel.
unfoldable pub glob_loop : ℕ → Bytes → Bytes → Saved → Option Bool
unfolding only_stars retry
glob_loop zero p t saved = none
glob_loop (suc fuel) p [] saved = some (only_stars p)
glob_loop (suc fuel) [] (b ∷ t) saved = retry (glob_loop fuel) saved
glob_loop (suc fuel) (c ∷ p) (b ∷ t) saved =
    let matched = glob_loop fuel p t saved in
    let starred = glob_loop fuel p (b ∷ t) (some (p, b ∷ t)) in
    if c == any_byte || c == b
    then matched
    else if c == star
    then starred
    else retry (glob_loop fuel) saved

unfoldable pub glob_match_bytes : Bytes → Bytes → Option Bool
unfolding glob_loop
glob_match_bytes pattern text =
    glob_loop (length text * (length pattern + 1) + length pattern + 1) pattern text none

-- What a glob means: a star stands for any bytes, a question mark for any one, any other byte for
-- itself.
unfoldable pub anywhere : (Bytes → Bool) → Bytes → Bool
anywhere matches [] = matches []
anywhere matches (b ∷ t) = matches (b ∷ t) || anywhere matches t

unfoldable pub first_byte : ℕ → (Bytes → Bool) → Bytes → Bool
first_byte c matches [] = false
first_byte c matches (b ∷ t) = (c == any_byte || c == b) && matches t

unfoldable pub globs : Bytes → Bytes → Bool
unfolding anywhere first_byte
globs [] [] = true
globs [] (b ∷ t) = false
globs (c ∷ p) t = if c == star then anywhere (globs p) t else first_byte c (globs p) t
