-- ===== src/Viewer/Layout.antt =====
-- rb-tree-binary-tree/Tree-RB-tree/Tree-RB-tree/Tree-RB-tree.cpp: where `CalculateTree` puts the
-- nodes.
use game_server_portfolio.Base.{ℕ, List, [], ◌∷◌, Option, some}
use game_server_portfolio.Entries.{Entry}
use game_server_portfolio.Viewer.{Viewer}

-- Without leaves the keys drawn are those of the tree in order.
abbrev pub keys_of : List (Entry ℕ) → List (Option ℕ)
keys_of [] = []
keys_of (e ∷ es) = some e.key ∷ keys_of es
