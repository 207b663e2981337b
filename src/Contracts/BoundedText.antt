-- ===== src/Contracts/BoundedText.antt =====
-- packages/contracts/src/primitives.ts: boundedTextSchema. A text is its list of code units.
use aquarium_controller.Prelude.{
  ℕ, Bool, false, not, ◌&&◌, ◌||◌, [], ◌∷◌, if◌then◌else◌, leb, ◌==◌, Text, text_eq, length,
}

-- What String.prototype.trim takes off: the white space and the line terminators of the language
abbrev pub is_white_space : ℕ → Bool
is_white_space c =
    (leb 9 c && leb c 13)
    || (c == 32
        || (c == 160
            || (c == 5760
                || ((leb 8192 c && leb c 8202)
                    || (c == 8232
                        || (c == 8233
                            || (c == 8239 || (c == 8287 || (c == 12288 || c == 65279)))))))))

abbrev pub trim_start : Text → Text
trim_start [] = []
trim_start (c ∷ rest) = let later = trim_start rest in if is_white_space c then later else c ∷ rest

-- A unit before the rest of a text that is trimmed at its end
abbrev before_end : ℕ → Text → Text
before_end c [] = if is_white_space c then [] else c ∷ []
before_end c (d ∷ rest) = c ∷ d ∷ rest

abbrev pub trim_end : Text → Text
trim_end [] = []
trim_end (c ∷ rest) = before_end c (trim_end rest)

-- A code point beyond the first plane is two units, neither of them a control character.
abbrev pub has_control : Text → Bool
has_control [] = false
has_control (c ∷ rest) = (leb c 31 || c == 127) || has_control rest

-- boundedTextSchema
abbrev pub is_bounded : Text → Bool
is_bounded t =
    (leb 1 (length t) && leb (length t) 256)
    && (text_eq (trim_start (trim_end t)) t && not (has_control t))
