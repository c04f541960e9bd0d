-- ===== src/Util/Parseurl/Defined.antt =====
-- src/util/parseurl.c: when parsing reads only memory that it may read.
use lib_open_rtmp.Base.{ℕ, Bool, true, false, ◌&&◌, List, [], ◌∷◌}
use lib_open_rtmp.Util.Parseurl.Parser.{Parser, is_space}
use lib_open_rtmp.Util.Parseurl.Held.{Held}

abbrev pub all_space : List ℕ → Bool
all_space [] = true
all_space (c ∷ cs) = is_space c && all_space cs

-- There is a blank, and nothing else.
abbrev pub only_blanks : List ℕ → Bool
only_blanks [] = false
only_blanks (c ∷ cs) = all_space (c ∷ cs)
