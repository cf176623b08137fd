-- ===== src/Fs/Paths/Tests.antt =====
-- kernel/fs.c: the path "///a//bb".
use kali.Prelude.{ℕ, ◌≡◌, ◌⊎◌, refl, none, some, List, [], ◌∷◌}
use kali.Fs.Directories.{Name}
use kali.Fs.Paths.{skipelem}
use kali.Fs.Paths.Elements.{fields, elements, IsTaken, skipelem_lem}

abbrev nested : List ℕ
nested = 47 ∷ 47 ∷ 47 ∷ 97 ∷ 47 ∷ 47 ∷ 98 ∷ 98 ∷ []

nested-elements : elements nested ≡ (97 ∷ []) ∷ (98 ∷ 98 ∷ []) ∷ []
unfolding elements fields
nested-elements = refl

skipelem_lem_example :
    ((elements nested ≡ []) × (skipelem nested (λ _. 0) ≡ none))
    ⊎ ((e : List ℕ) × (es : List (List ℕ)) × (rest : List ℕ) × (name : Name) × (skipelem nested
            (λ _. 0)
          ≡ some (rest, name))
        × IsTaken nested e es rest name)
skipelem_lem_example = skipelem_lem nested (λ _. 0)
