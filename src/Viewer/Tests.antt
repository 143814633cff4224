-- ===== src/Viewer/Tests.antt =====
-- A tree of three nodes drawn.
use game_server_portfolio.Base.{ℕ, false, []}
use game_server_portfolio.Entries.{Entry}
use game_server_portfolio.RbTree.{black, red, nil, node}
use game_server_portfolio.Viewer.{Viewer}

abbrev numbered : ℕ → Entry ℕ
numbered k = record { key = k; value = 0; count = 1 }

abbrev window : Viewer
window = record {
  tree = record {
    root = node black (node red nil (numbered 1) nil) (numbered 2) (node red nil (numbered 3) nil);
    count = 3;
    insert_vec = [];
    delete_vec = [];
  };
  is_duplicate_node = false;
  show_nil_nodes = false;
  drawing = record { node_pos_x = 0; nodes = []; lines = [] };
}
