-- ===== src/Pipeline/Spaces.antt =====
-- 12_channels/p3.c: cutting off the spaces around a command.
use eltex_homeworks.Prelude.{
  ℕ, zero, suc, ◌<◌, ◌≡◌, refl, ap, ◌∙◌, false, List, [], ◌∷◌, ◌++◌, ◌==◌, arith, length, replicate,
  append_assoc, sym,
}
use eltex_homeworks.Libc.Text.{Text, HasNo}
use eltex_homeworks.Libc.Tokens.{skip_delims}
use eltex_homeworks.Pipeline.CommandLine.{trim, trim_end}
use eltex_homeworks.Pipeline.Words.{join, AreWords}

abbrev pub spaces : ℕ → Text
spaces n = replicate n 32

-- Not empty, and the last byte is no space.
abbrev EndsSolid : Text → Type 0
EndsSolid [] = ⊥
EndsSolid (c ∷ []) = (32 == c) ≡ false
EndsSolid (c ∷ d ∷ s) = EndsSolid (d ∷ s)

EndsSolid-append : (s t : Text) → EndsSolid t → EndsSolid (s ++ t)
EndsSolid-append [] t h = h
EndsSolid-append (c ∷ []) [] h = absurd h
EndsSolid-append (c ∷ []) (d ∷ t) h = h
EndsSolid-append (c ∷ d ∷ s) t h = EndsSolid-append (d ∷ s) t h

EndsSolid-word : (w : Text) → 0 < length w → HasNo 32 w → EndsSolid w
EndsSolid-word [] ne h = absurd (omega arith)
EndsSolid-word (c ∷ []) ne h = h.0
EndsSolid-word (c ∷ d ∷ w) ne h = EndsSolid-word (d ∷ w) (omega arith) h.1

EndsSolid-join : (w : Text) (ws : List Text) → AreWords 32 (w ∷ ws) → EndsSolid (join 32 (w ∷ ws))
EndsSolid-join w [] ((ne, plain), h) = EndsSolid-word w ne plain
EndsSolid-join w (v ∷ ws) ((ne, plain), h) =
    EndsSolid-append w (32 ∷ join 32 (v ∷ ws))
      (EndsSolid-append (32 ∷ []) (join 32 (v ∷ ws)) (EndsSolid-join v ws h))

trim_end-spaces : (n : ℕ) → trim_end (spaces n) ≡ []
unfolding trim_end
trim_end-spaces zero = refl
trim_end-spaces (suc n) = rw (trim_end-spaces n, trim_end) refl

trim_end-EndsSolid : (s : Text) (n : ℕ) → EndsSolid s → trim_end (s ++ spaces n) ≡ s
unfolding trim_end
trim_end-EndsSolid [] n h = absurd h
trim_end-EndsSolid (c ∷ []) n h =
    let other : (c == 32) ≡ false = ground arith in rw (trim_end-spaces n, trim_end) (rw other refl)
trim_end-EndsSolid (c ∷ d ∷ s) n h = rw (trim_end-EndsSolid (d ∷ s) n h, trim_end) refl

skip_delims-spaces : (n : ℕ) (s : Text) → skip_delims 32 (spaces n ++ s) ≡ skip_delims 32 s
unfolding skip_delims
skip_delims-spaces zero s = refl
skip_delims-spaces (suc n) s = skip_delims-spaces n s

skip_delims-word : (w s : Text) → 0 < length w → HasNo 32 w → skip_delims 32 (w ++ s) ≡ w ++ s
unfolding skip_delims
skip_delims-word [] s ne h = absurd (omega arith)
skip_delims-word (c ∷ w) s ne h = rw h.0 refl

skip_delims-join :
    (w : Text) (ws : List Text) (s : Text)
    → AreWords 32 (w ∷ ws)
    → skip_delims 32 (join 32 (w ∷ ws) ++ s) ≡ join 32 (w ∷ ws) ++ s
skip_delims-join w [] s ((ne, plain), h) = skip_delims-word w s ne plain
skip_delims-join w (v ∷ ws) s ((ne, plain), h) =
    ap (skip_delims 32) (append_assoc w (32 ∷ join 32 (v ∷ ws)) s)
    ∙ skip_delims-word w (32 ∷ join 32 (v ∷ ws) ++ s) ne plain
    ∙ sym (append_assoc w (32 ∷ join 32 (v ∷ ws)) s)

-- The words of a command, with any spaces in front of them and behind.
pub trim-join :
    (before after : ℕ) (w : Text) (ws : List Text)
    → AreWords 32 (w ∷ ws)
    → trim (spaces before ++ (join 32 (w ∷ ws) ++ spaces after)) ≡ join 32 (w ∷ ws)
unfolding trim
trim-join before after w ws h =
    ap trim_end (
      skip_delims-spaces before (join 32 (w ∷ ws) ++ spaces after)
      ∙ skip_delims-join w ws (spaces after) h)
    ∙ trim_end-EndsSolid (join 32 (w ∷ ws)) after (EndsSolid-join w ws h)
