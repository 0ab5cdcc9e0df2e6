-- ===== src/Sandbox/Path/Laws.antt =====
-- Normal paths, and the order "is under".
use agentwire_cue.Prelude.{
  String, ◌≡◌, refl, Bool, true, false, ◌||◌, List, [], ◌∷◌, ◌==◌, arith, if◌then◌else◌, eq_iff,
}
use agentwire_cue.Sandbox.Path.{
  PurePath, split_slashes, normalize_step, reverse_onto, normalize, path_of, starts_with, is_under,
}

-- The components that normpath takes away.
abbrev pub is_special : String → Bool
is_special c = c == "" || c == "." || c == ".."

-- No component is empty, a dot or two dots.
abbrev pub Normal : List String → Type 0
Normal [] = Unit
Normal (c ∷ cs) = (is_special c ≡ false) × Normal cs

step-Normal : (ds : List String) (c : String) → Normal ds → Normal (normalize_step ds c)
unfolding normalize_step
step-Normal [] c h = go (is_special c) refl
  where
    go : (b : Bool) → is_special c ≡ b → Normal (if b then [] else c ∷ [])
    go true e = tt
    go false e = (e, tt)
step-Normal (d ∷ ds) c h = go (c == "" || c == ".") (c == "..") refl refl
  where
    go :
        (p q : Bool)
        → (c == "" || c == ".") ≡ p
        → (c == "..") ≡ q
        → Normal (if p then d ∷ ds else if q then ds else c ∷ d ∷ ds)
    go true q e f = h
    go false true e f = h.1
    go false false e f = (ground (arith, e, f), h)

reverse_onto-Normal : (cs ds : List String) → Normal cs → Normal ds → Normal (reverse_onto cs ds)
unfolding reverse_onto
reverse_onto-Normal [] ds h k = k
reverse_onto-Normal (c ∷ cs) ds h k = reverse_onto-Normal cs (c ∷ ds) h.1 (h.0, k)

normalize-Normal : (ds cs : List String) → Normal ds → Normal (normalize ds cs)
unfolding normalize
normalize-Normal ds [] h = reverse_onto-Normal ds [] h tt
normalize-Normal ds (c ∷ cs) h = normalize-Normal (normalize_step ds c) cs (step-Normal ds c h)

-- No path that the sandbox looks at has a component that is empty, a dot or two dots.
pub path_of-Normal : (s : String) → Normal (path_of s).parts
unfolding path_of
path_of-Normal s = normalize-Normal [] (split_slashes s) tt

starts_with_refl : (cs : List String) → starts_with cs cs ≡ true
unfolding starts_with
starts_with_refl [] = refl
starts_with_refl (c ∷ cs) = ground (arith, eq_iff c c, starts_with_refl cs)

starts_with_trans :
    (xs bs cs : List String)
    → starts_with xs bs ≡ true
    → starts_with bs cs ≡ true
    → starts_with xs cs ≡ true
unfolding starts_with
starts_with_trans [] bs cs h k = refl
starts_with_trans (a ∷ xs) (b ∷ bs) (c ∷ cs) h k =
    ground (arith, eq_iff a b, eq_iff b c, eq_iff a c, starts_with_trans xs bs cs)
starts_with_trans (a ∷ xs) [] cs h k = ground arith
starts_with_trans (a ∷ xs) (b ∷ bs) [] h k = ground arith

-- Every path is under itself, and what is under a path that is under a third is under the third: a
-- directory that is blocked is blocked with all that is below it.
pub is_under-order :
    (a b c : PurePath)
    → (is_under a a ≡ true) × (is_under a b ≡ true → is_under b c ≡ true → is_under a c ≡ true)
unfolding is_under
is_under-order a b c = (
  ground (arith, starts_with_refl a.parts),
  λ h k. ground (arith, starts_with_trans c.parts b.parts a.parts),
)
