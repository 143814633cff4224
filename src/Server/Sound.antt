-- ===== src/Server/Sound.antt =====
-- What holds of a slot between two rounds: how many operations are in flight on it, and whether
-- its id is on the stack. `Held` counts, for each slot, what a handler that is running has still to
-- settle: operations that it has taken from the port and not yet counted off, operations that it has
-- counted and not yet posted, and a receive that it has still to post.
pub mod Release
pub mod Post
pub mod Messages
pub mod Handlers
pub mod Accept
pub mod Reach
pub mod Tests
use game_server_portfolio.Base.{
  count, ℕ, suc, ◌+◌, ◌<◌, ◌≤◌, ◌≡◌, ◌⊎◌, true, false, List, [], ◌∷◌, ◌==◌, if◌then◌else◌, pos,
  length,
}
use game_server_portfolio.Server.State.{
  IoType, io_recv, io_send, Session, Server, session_at, is_active,
}

pub record Held : Type 0 where
  pub recv : ℕ → ℕ
  pub send : ℕ → ℕ
  pub owed : ℕ → ℕ

abbrev pub nothing : Held
nothing = record { recv = λ j. 0; send = λ j. 0; owed = λ j. 0 }

abbrev pub bump : ℕ → (ℕ → ℕ) → ℕ → ℕ
bump i f j = if i == j then suc (f j) else f j

abbrev pub hold_recv : ℕ → Held → Held
hold_recv i h = record h { recv = bump i h.recv }

abbrev pub hold_send : ℕ → Held → Held
hold_send i h = record h { send = bump i h.send }

abbrev pub owe : ℕ → Held → Held
owe i h = record h { owed = bump i h.owed }

-- the operation of this type held
abbrev pub hold : IoType → ℕ → Held → Held
hold io_recv i h = hold_recv i h
hold io_send i h = hold_send i h

-- The receives and the sends in flight on a slot.
abbrev pub recvs : ℕ → List (ℕ × IoType) → ℕ
recvs j [] = 0
recvs j ((i, io_recv) ∷ ps) = (if i == j then 1 else 0) + recvs j ps
recvs j ((i, io_send) ∷ ps) = recvs j ps

abbrev pub sends : ℕ → List (ℕ × IoType) → ℕ
sends j [] = 0
sends j ((i, io_recv) ∷ ps) = sends j ps
sends j ((i, io_send) ∷ ps) = (if i == j then 1 else 0) + sends j ps

-- A session with `r` receives, `w` sends and `g` receives owed, whose id `j` stands `f` times on the
-- stack.
abbrev pub IsFree : Session → ℕ → ℕ → ℕ → Type 0
IsFree s r w f = (is_active s ≡ false) × (r ≡ 0) × (w ≡ 0) × (f ≡ 1)

abbrev pub IsTaken : Session → ℕ → ℕ → ℕ → ℕ → ℕ → Type 0
IsTaken s j r w g f =
    (is_active s ≡ true)
    × (s.id ≡ j)
    × (f ≡ 0)
    × ((s.disconnect_requested ≡ true) × (0 < r + w + g)
        ⊎ (s.disconnect_requested ≡ false) × (r + g ≡ 1))

pub record SlotOk (s : Session) (j r w g f : ℕ) : Type 0 where
  pub counted : s.ref_count ≡ pos (r + w)
  pub one_recv : r + g ≤ 1
  pub one_send : w ≤ (if s.is_sending then 1 else 0)
  pub use_of : IsFree s r w f ⊎ IsTaken s j r w g f

-- an id, which is one of a slot or of none
abbrev pub Slot : ℕ → Session → ℕ → ℕ → ℕ → ℕ → ℕ → Type 0
Slot n s j r w g f = (j < n) × SlotOk s j r w g f ⊎ (n ≤ j) × (r ≡ 0) × (w ≡ 0) × (g ≡ 0) × (f ≡ 0)

abbrev pub Sound : Server → Held → Type 0
Sound v h =
    (j : ℕ)
    → Slot (length v.sessions) (session_at v j) j (recvs j v.sockets.pending + h.recv j)
        (sends j v.sockets.pending + h.send j) (h.owed j) (count j v.session_id_stack)
