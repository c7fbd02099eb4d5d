-- ===== src/Orchestra/Obscurement/Samples.antt =====
-- A button under a sheet, and the theorem on it.
use atomyx.Prelude.{◌≡◌, refl, [], ◌∷◌, none, some, codes}
use atomyx.Wire.{TreeNode, node, nil, cons}
use atomyx.Orchestra.Cursor.Walk.{Cursor, root, below, walk}
use atomyx.Orchestra.Fixtures.{pixels, inert}
use atomyx.Orchestra.Obscurement.{ObscurerInfo, detect_obscurement}
use atomyx.Orchestra.Obscurement.Topmost.{Obscures, detect_obscurement-Obscures}

abbrev button : TreeNode
button = node ((codes "bounds", codes "10,10,30,30") ∷ []) inert nil

abbrev sheet : TreeNode
sheet = node ((codes "bounds", codes "0,0,100,100") ∷ (codes "role", codes "sheet") ∷ []) inert nil

abbrev covered : TreeNode
covered = node [] inert (cons button (cons sheet nil))

abbrev target : Cursor
target = below button (root covered) 1 0

abbrev reported : ObscurerInfo
reported = record { role = codes "sheet"; id = []; label = [] }

covers_button : detect_obscurement pixels covered target ≡ some reported
unfolding detect_obscurement pixels walk
covers_button = refl

-- The sheet does not cover itself.
sheet_on_top : detect_obscurement pixels covered (below sheet (root covered) 1 1) ≡ none
unfolding detect_obscurement pixels walk
sheet_on_top = refl

detect_obscurement-Obscures_example : Obscures pixels covered target reported
detect_obscurement-Obscures_example =
    detect_obscurement-Obscures pixels covered target reported covers_button
