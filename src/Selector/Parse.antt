-- ===== src/Selector/Parse.antt =====
-- internal/selector/selector.go: `parseOne` beside a printer of selectors.
use mathlib.Core.List.{append-nil, append_assoc}
use kanly.Base.{
  ℕ, zero, suc, ◌+◌, ◌-◌, ltb, ◌≡◌, ap, refl, sym, ◌∙◌, Bool, true, false, not, ◌&&◌, Text, codes,
  List, [], ◌∷◌, ◌++◌, Option, none, some, nat_beq, arith, take, drop, length, All, if◌then◌else◌,
}
use kanly.Base.Attempt.{done}
use kanly.Base.Strings.{trim_space, trim_left, trim_right, is_space, join, contains_text}
use kanly.Selector.{
  Move, ends, unbalanced, goes_on, move, depth_after, is_paren, split_from, split_outside_parens,
  checked_name, list_from, split_func_list, check_spec, parse_one,
}

-- The depth behind a text with no separator and no unmatched `)` in it.
abbrev pub scan : ℕ → Text → Option ℕ
scan depth [] = some depth
scan depth (c ∷ s) =
    let rest = scan (depth_after depth c) s in elim (move depth c) [ goes_on ↦ rest | _ ↦ none ]

-- The text begins with something that is no white space.
abbrev pub starts : Text → Bool
starts [] = false
starts (c ∷ s) = not (is_space c)

-- Each parenthesis has its partner, and no separator stands outside parentheses.
abbrev pub balanced : ℕ → ℕ → Text → Bool
balanced sep depth [] = nat_beq depth 0
balanced sep depth (c ∷ s) =
    let deeper = balanced sep (depth + 1) s in
    let closed = balanced sep (depth - 1) s in
    let same = balanced sep depth s in
    if nat_beq c b'('
    then deeper
    else if nat_beq c b')'
    then ltb 0 depth && closed
    else if nat_beq c sep && nat_beq depth 0
    then false
    else same

-- A name that can stand in a list: its parentheses are balanced with every comma inside them, it is
-- not empty, and no white space is around it.
pub record FuncName (n : Text) : Type 0 where
  pub parens : balanced b',' 0 n ≡ true
  pub left : starts n ≡ true
  pub right : trim_right n ≡ n

balanced-scan : (d : ℕ) (n : Text) → balanced b',' d n ≡ true → scan d n ≡ some 0
balanced-scan d [] h = ground arith
balanced-scan d (c ∷ n) h =
    ground (arith, balanced-scan (d + 1) n, balanced-scan (d - 1) n, balanced-scan d n)

list_from-scan :
    (parts : List Text) (part n rest : Text) (d d' : ℕ)
    → scan d n ≡ some d'
    → list_from parts part d (n ++ rest) ≡ list_from parts (part ++ n) d' rest
unfolding list_from
list_from-scan parts part [] rest d d' h = rw (append-nil part) (ground arith)
list_from-scan parts part (c ∷ n) rest d d' h =
    step (move d c) refl (list_from-scan parts (part ++ c ∷ []) n rest (depth_after d c) d')
  where
    step :
        (v : Move)
        → move d c ≡ v
        → (scan (depth_after d c) n ≡ some d'
            → list_from parts (part ++ c ∷ []) (depth_after d c) (n ++ rest)
              ≡ list_from parts ((part ++ c ∷ []) ++ n) d' rest)
        → list_from parts part d (c ∷ (n ++ rest)) ≡ list_from parts (part ++ c ∷ n) d' rest
    step goes_on e ih =
        rw (e, list_from) (ih (rw (e, scan) at h) ∙ rw (append_assoc part (c ∷ []) n) refl)
    step ends e ih = cc (rw (e, scan) at h)
    step unbalanced e ih = cc (rw (e, scan) at h)

trim_right-append :
    (s t u : Text) (d : ℕ) → trim_right t ≡ d ∷ u → trim_right (s ++ t) ≡ s ++ (d ∷ u)
unfolding trim_right
trim_right-append [] t u d h = h
trim_right-append (c ∷ []) t u d h = rw (h, trim_right) refl
trim_right-append (c ∷ b ∷ s) t u d h = rw (trim_right-append (b ∷ s) t u d h, trim_right) refl

trim_left-append : (s t : Text) → starts s ≡ true → trim_left (s ++ t) ≡ s ++ t
unfolding trim_left
trim_left-append [] t h = cc
trim_left-append (c ∷ s) t h = ground arith

trim_space-starts : (s : Text) → starts s ≡ true → trim_right s ≡ s → trim_space s ≡ s
unfolding trim_space trim_left
trim_space-starts [] h k = refl
trim_space-starts (c ∷ s) h k = let e : is_space c ≡ false = ground arith in rw (e, trim_left) k

checked_name-starts : (s : Text) → starts s ≡ true → checked_name s ≡ done s
checked_name-starts [] h = cc
checked_name-starts (c ∷ s) h = refl

checked : (n : Text) → FuncName n → checked_name (trim_space n) ≡ done n
checked n w = rw (trim_space-starts n w.left w.right) (checked_name-starts n w.left)

-- Behind a name the list ends or goes on.
list_from-last :
    (parts : List Text) (n : Text) → FuncName n → list_from parts n 0 [] ≡ done (parts ++ n ∷ [])
unfolding list_from
list_from-last parts n w = rw (checked n w) refl

list_from-comma :
    (parts : List Text) (n rest : Text)
    → FuncName n
    → list_from parts n 0 (codes "," ++ rest) ≡ list_from (parts ++ n ∷ []) [] 0 rest
unfolding list_from
list_from-comma parts n rest w = rw (checked n w) refl

list_from-join :
    (parts names : List Text) (n : Text)
    → FuncName n
    → All FuncName names
    → list_from parts [] 0 (join (codes ",") (n ∷ names)) ≡ done (parts ++ n ∷ names)
unfolding join
list_from-join parts [] n w ws =
    ap (list_from parts [] 0) (sym (append-nil n))
    ∙ list_from-scan parts [] n [] 0 0 (balanced-scan 0 n w.parens)
    ∙ list_from-last parts n w
list_from-join parts (m ∷ names) n w ws =
    list_from-scan parts [] n (codes "," ++ join (codes ",") (m ∷ names)) 0 0
      (balanced-scan 0 n w.parens)
    ∙ list_from-comma parts n (join (codes ",") (m ∷ names)) w
    ∙ list_from-join (parts ++ n ∷ []) names m ws.0 ws.1
    ∙ ap done (append_assoc parts (n ∷ []) (m ∷ names))

-- A list of balanced names without outer white space, joined by commas, is split into them.
pub split_func_list-join :
    (names : List Text) (n : Text)
    → FuncName n
    → All FuncName names
    → split_func_list (join (codes ",") (n ∷ names)) ≡ done (n ∷ names)
unfolding split_func_list
split_func_list-join names n w ws = list_from-join [] names n w ws

starts-join :
    (n : Text) (names : List Text) → starts n ≡ true → starts (join (codes ",") (n ∷ names)) ≡ true
unfolding join
starts-join [] names h = cc
starts-join (c ∷ n) [] h = h
starts-join (c ∷ n) (m ∷ names) h = h

trim_right-after : (s t : Text) → starts t ≡ true → trim_right t ≡ t → trim_right (s ++ t) ≡ s ++ t
trim_right-after s [] h k = cc
trim_right-after s (d ∷ u) h k = trim_right-append s (d ∷ u) u d k

trim_right-join :
    (n : Text) (names : List Text)
    → FuncName n
    → All FuncName names
    → trim_right (join (codes ",") (n ∷ names)) ≡ join (codes ",") (n ∷ names)
unfolding join
trim_right-join n [] w ws = w.right
trim_right-join n (m ∷ names) w ws =
    let e = append_assoc n (codes ",") (join (codes ",") (m ∷ names)) in
    ap trim_right (sym e)
    ∙ trim_right-after (n ++ codes ",") (join (codes ",") (m ∷ names))
        (starts-join m names ws.0.left) (trim_right-join m names ws.0 ws.1)
    ∙ e

-- The depth behind a text with no colon outside parentheses.
abbrev pub clear : ℕ → Text → Option ℕ
clear depth [] = some depth
clear depth (c ∷ s) =
    let rest = clear (depth_after depth c) s in
    if not (is_paren c) && (nat_beq c b':' && nat_beq depth 0) then none else rest

-- A pattern that names one package: its parentheses are balanced with every colon inside them.
pub record PackagePattern (p : Text) : Type 0 where
  pub parens : balanced b':' 0 p ≡ true
  pub left : starts p ≡ true
  pub right : trim_right p ≡ p
  pub single : contains_text p (codes "...") ≡ false

balanced-clear : (d : ℕ) (p : Text) → balanced b':' d p ≡ true → clear d p ≡ some 0
balanced-clear d [] h = ground arith
balanced-clear d (c ∷ p) h =
    ground (arith, balanced-clear (d + 1) p, balanced-clear (d - 1) p, balanced-clear d p)

split_from-clear :
    (d i : ℕ) (p rest : Text)
    → clear d p ≡ some 0
    → split_from b':' d i (p ++ (codes ":" ++ rest)) ≡ some (i + length p)
unfolding split_from
split_from-clear d i [] rest h = ground arith
split_from-clear d i (c ∷ p) rest h =
    ground (arith, split_from-clear (depth_after d c) (i + 1) p rest)

split_from-none : (d d' i : ℕ) (p : Text) → clear d p ≡ some d' → split_from b':' d i p ≡ none
unfolding split_from
split_from-none d d' i [] h = refl
split_from-none d d' i (c ∷ p) h = ground (arith, split_from-none (depth_after d c) d' (i + 1) p)

take-append : (p rest : Text) → take (length p) (p ++ rest) ≡ p
take-append [] rest = refl
take-append (c ∷ p) rest = cc (take-append p rest)

drop-append : (k : ℕ) (p rest : Text) (c : ℕ) → k ≡ length p + 1 → drop k (p ++ c ∷ rest) ≡ rest
drop-append zero p rest c h = absurd (ground arith)
drop-append (suc k) [] rest c h = let e : k ≡ 0 = omega arith in rw e refl
drop-append (suc k) (b ∷ p) rest c h = drop-append k p rest c (omega arith)

split_outside_parens-clear :
    (p rest : Text)
    → clear 0 p ≡ some 0
    → split_outside_parens (p ++ (codes ":" ++ rest)) b':' ≡ some (length p)
unfolding split_outside_parens
split_outside_parens-clear p rest h = ground (arith, split_from-clear 0 0 p rest h)

check_spec-starts :
    (p rest : Text) (names : List Text)
    → starts p ≡ true
    → starts rest ≡ true
    → contains_text p (codes "...") ≡ false
    → split_func_list rest ≡ done names
    → check_spec p rest ≡ done (record { pattern = p; funcs = names })
unfolding check_spec
check_spec-starts [] rest names h k e f = cc
check_spec-starts (c ∷ p) [] names h k e f = cc
check_spec-starts (c ∷ p) (d ∷ rest) names h k e f = rw (e, f) refl

-- A package with a list of function names, joined by a colon and commas, is parsed into that package and
-- those names. The pattern and the names have balanced parentheses, are not empty and have no white
-- space around them. The pattern has no colon outside its parentheses and no "...", and a name has no
-- comma outside its own.
pub parse_one-join :
    (p : Text) (names : List Text) (n : Text)
    → PackagePattern p
    → FuncName n
    → All FuncName names
    → parse_one (p ++ (codes ":" ++ join (codes ",") (n ∷ names)))
      ≡ done (record { pattern = p; funcs = n ∷ names })
unfolding parse_one
parse_one-join p names n v w ws =
    let list = join (codes ",") (n ∷ names) in
    rw
      (
        split_outside_parens-clear p list (balanced-clear 0 p v.parens),
        parse_one,
        take-append p (codes ":" ++ list),
        drop-append (length p + 1) p list b':' refl,
        trim_space-starts p v.left v.right,
        trim_space-starts list (starts-join n names w.left) (trim_right-join n names w ws),
      )
      (check_spec-starts p list (n ∷ names) v.left (starts-join n names w.left) v.single
        (split_func_list-join names n w ws))
