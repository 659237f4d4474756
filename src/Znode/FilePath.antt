-- ===== src/Znode/FilePath.antt =====
-- path/filepath on Unix, as far as the znode package uses it: Clean, Dir, Base and Join.
use mathlib.Core.List.{reverse, foldl}
use dsc_zookeeper.Prelude.{
  ℕ, Str, List, [], ◌∷◌, ◌++◌, Bool, false, ◌==◌, nat_eq, str_eq, str_beq, if◌then◌else◌, ◌≡◌, refl,
  codes,
}

abbrev slash : ℕ
slash = b'/'

abbrev cons_head : ℕ → List Str → List Str
cons_head c [] = (c ∷ []) ∷ []
cons_head c (x ∷ xs) = (c ∷ x) ∷ xs

-- The elements between the slashes.
pub split : Str → List Str
split [] = [] ∷ []
split (c ∷ s) = let rest = split s in if c == slash then [] ∷ rest else cons_head c rest

abbrev join_slash : List Str → Str
join_slash [] = []
join_slash (x ∷ []) = x
join_slash (x ∷ y ∷ xs) = x ++ slash ∷ join_slash (y ∷ xs)

abbrev is_rooted : Str → Bool
is_rooted [] = false
is_rooted (c ∷ s) = c == slash

abbrev back : Bool → List Str → List Str
back rooted [] = if rooted then [] else codes ".." ∷ []
back rooted (top ∷ out) = if top == codes ".." then codes ".." ∷ top ∷ out else out

-- One element, on the elements kept so far, the last one first.
abbrev keep : Bool → List Str → Str → List Str
keep rooted out x =
    if x == []
    then out
    else if x == codes "."
    then out
    else if x == codes ".."
    then back rooted out
    else x ∷ out

abbrev dot_if_empty : Str → Str
dot_if_empty [] = codes "."
dot_if_empty (c ∷ s) = c ∷ s

unfoldable pub clean : Str → Str
unfolding split
clean p =
    let body = join_slash (reverse (foldl (keep (is_rooted p)) [] (split p))) in
    if is_rooted p then slash ∷ body else dot_if_empty body

-- The text up to and with the last slash, and the text behind it, of a reversed path.
abbrev before_slash : Str → Str
before_slash [] = []
before_slash (c ∷ s) = if c == slash then c ∷ s else before_slash s

abbrev until_slash : Str → Str
until_slash [] = []
until_slash (c ∷ s) = let rest = until_slash s in if c == slash then [] else c ∷ rest

abbrev drop_slashes : Str → Str
drop_slashes [] = []
drop_slashes (c ∷ s) = if c == slash then drop_slashes s else c ∷ s

unfoldable pub dir : Str → Str
unfolding clean
dir p = clean (reverse (before_slash (reverse p)))

abbrev slash_if_empty : Str → Str
slash_if_empty [] = slash ∷ []
slash_if_empty (c ∷ s) = c ∷ s

unfoldable pub base : Str → Str
base p =
    if p == [] then codes "." else slash_if_empty (reverse (until_slash (drop_slashes (reverse p))))

-- Join of two elements: empty ones in front are left out.
unfoldable pub join : Str → Str → Str
unfolding clean
join a b = if a == [] then (if b == [] then [] else clean b) else clean (a ++ slash ∷ b)

clean_test : clean (codes "a//b/../c/.") ≡ codes "a/c"
unfolding clean str_beq
clean_test = refl

dir_test : dir (codes "topic/msg") ≡ codes "topic"
unfolding dir str_beq
dir_test = refl

dir_top : dir (codes "topic") ≡ codes "."
unfolding dir str_beq
dir_top = refl

base_test : base (codes "topic/msg_1") ≡ codes "msg_1"
unfolding base str_beq
base_test = refl

join_test : join (codes ".") (codes "topic") ≡ codes "topic"
unfolding join str_beq
join_test = refl
