-- ===== src/FilePath.antt =====
-- The parts of Go's `path/filepath` that the program uses, on slash-separated paths: a path is its
-- bytes. The source calls this package; the definitions follow its documentation.
use codexfold.Prelude.{
  ℕ, Bool, true, false, ◌||◌, List, [], ◌∷◌, ◌++◌, ◌==◌, if◌then◌else◌, ◌≡◌, refl, ◌⊎◌, inl, inr,
  arith,
}
use codexfold.Prelude.Bytes.{Bytes, bytes_eq, is_empty, contains_any}
use mathlib.Core.List.{reverse, reverse_aux}

abbrev slash : ℕ
slash = b'/'

abbrev dot : Bytes
dot = b'.' ∷ []

abbrev dot_dot : Bytes
dot_dot = b'.' ∷ b'.' ∷ []

unfoldable pub is_abs : Bytes → Bool
is_abs [] = false
is_abs (c ∷ cs) = c == slash

-- The elements between the slashes, with the element that is being read first.
split_from : Bytes → Bytes → List Bytes
split_from element [] = element ∷ []
split_from element (c ∷ cs) =
    let next = split_from [] cs in
    let same = split_from (element ++ c ∷ []) cs in if c == slash then element ∷ next else same

-- One `..` on the elements that are kept so far, the last one first.
parent : Bool → List Bytes → List Bytes
parent rooted [] = if rooted then [] else dot_dot ∷ []
parent rooted (e ∷ es) = if bytes_eq e dot_dot then dot_dot ∷ e ∷ es else es

clean_elements : Bool → List Bytes → List Bytes → List Bytes
clean_elements rooted kept [] = kept
clean_elements rooted kept (e ∷ es) =
    clean_elements rooted
      (if is_empty e || bytes_eq e dot
        then kept
        else if bytes_eq e dot_dot
        then parent rooted kept
        else e ∷ kept)
      es

join : List Bytes → Bytes
join [] = []
join (e ∷ []) = e
join (e ∷ es) = e ++ slash ∷ join es

or_dot : Bool → Bytes → Bytes
or_dot true path = slash ∷ path
or_dot false [] = dot
or_dot false path = path

-- `filepath.Clean`
unfoldable pub clean : Bytes → Bytes
unfolding split_from parent clean_elements join or_dot is_abs bytes_eq
clean path =
    let rooted = is_abs path in
    or_dot rooted (join (reverse (clean_elements rooted [] (split_from [] path))))

skip_slashes : Bytes → Bytes
skip_slashes [] = []
skip_slashes (c ∷ cs) = let rest = skip_slashes cs in if c == slash then rest else c ∷ cs

until_slash : Bytes → Bytes
until_slash [] = []
until_slash (c ∷ cs) = let rest = until_slash cs in if c == slash then [] else c ∷ rest

-- `reverse` is applied to the path without the slashes at its end.
last_element : Bytes → Bytes
last_element [] = slash ∷ []
last_element (c ∷ cs) = reverse (until_slash (c ∷ cs))

-- `filepath.Base`
unfoldable pub base : Bytes → Bytes
unfolding skip_slashes until_slash last_element
base [] = dot
base (c ∷ cs) = last_element (skip_slashes (reverse (c ∷ cs)))

abbrev pub has_slash : Bytes → Bool
has_slash = contains_any (λ c. c == slash)

has_slash-until_slash : (path : Bytes) → has_slash (until_slash path) ≡ false
unfolding until_slash contains_any
has_slash-until_slash [] = refl
has_slash-until_slash (c ∷ cs) = ground (arith, has_slash-until_slash cs)

has_slash-reverse_aux :
    (xs ys : Bytes)
    → has_slash xs ≡ false
    → has_slash ys ≡ false
    → has_slash (reverse_aux xs ys) ≡ false
unfolding contains_any
has_slash-reverse_aux [] ys h k = k
has_slash-reverse_aux (x ∷ xs) ys h k =
    has_slash-reverse_aux xs (x ∷ ys) (ground arith) (ground arith)

has_slash-last_element :
    (path : Bytes) → (last_element path ≡ slash ∷ []) ⊎ (has_slash (last_element path) ≡ false)
unfolding last_element contains_any
has_slash-last_element [] = inl refl
has_slash-last_element (c ∷ cs) =
    inr (has_slash-reverse_aux (until_slash (c ∷ cs)) [] (has_slash-until_slash (c ∷ cs)) refl)

-- The last element of a path has no slash, but for the root's.
pub has_slash-base : (path : Bytes) → (base path ≡ slash ∷ []) ⊎ (has_slash (base path) ≡ false)
unfolding base contains_any
has_slash-base [] = inr refl
has_slash-base (c ∷ cs) = has_slash-last_element (skip_slashes (reverse (c ∷ cs)))

-- "/a/./b//../c/.." is "/a", and "../x/.." is "..".
clean_examples :
    (clean (b'/' ∷ b'a' ∷ b'/' ∷ b'.' ∷ b'/' ∷ b'b' ∷ b'/' ∷ b'/' ∷ b'.' ∷ b'.' ∷ [])
      ≡ b'/' ∷ b'a' ∷ [])
    × (clean (b'.' ∷ b'.' ∷ b'/' ∷ b'x' ∷ b'/' ∷ b'.' ∷ b'.' ∷ []) ≡ dot_dot)
    × (clean [] ≡ dot)
    × (clean (b'/' ∷ b'.' ∷ b'.' ∷ []) ≡ slash ∷ [])
unfolding clean
clean_examples = (refl, refl, refl, refl)
