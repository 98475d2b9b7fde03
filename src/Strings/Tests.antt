-- ===== src/Strings/Tests.antt =====
-- Concrete runs of the text functions.
use deploypilot.Base.{◌≡◌, refl, [], ◌∷◌, codes}
use deploypilot.Strings.{trim_space, split, trim_prefix, atoi, decimal, pos, negsuc}

trims : trim_space (codes " a b\n") ≡ codes "a b"
unfolding trim_space
trims = refl

splits : split (codes "a||b") b'|' ≡ codes "a" ∷ [] ∷ codes "b" ∷ []
unfolding split
splits = refl

prefix_trimmed : trim_prefix b'/' (codes "/web") ≡ codes "web"
unfolding trim_prefix
prefix_trimmed = refl

numbers :
    (atoi (codes "137") ≡ pos 137) × (atoi (codes "-1") ≡ negsuc 0) × (atoi (codes "1x") ≡ pos 0)
unfolding atoi
numbers = (refl, refl, refl)

decimals : (decimal 0 ≡ codes "0") × (decimal 1207 ≡ codes "1207")
unfolding decimal
decimals = (refl, refl)
