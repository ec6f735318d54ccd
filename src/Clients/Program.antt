-- ===== src/Clients/Program.antt =====
-- The three clients from their command lines on.
pub mod Runs
use kernel_bypass_group_proj.Base.{ℕ, Bytes, List, [], ◌∷◌, Option, none, some}
use kernel_bypass_group_proj.Base.Int.{ℤ}
use kernel_bypass_group_proj.Mem.{Mem}
use kernel_bypass_group_proj.Sockets.{Net, Finish, failed, crashed, finished, open_client}
use kernel_bypass_group_proj.Clients.{Session, Outcome, undefined, returned, running, client_main}
use kernel_bypass_group_proj.Clients.Random.{rand_client_main}
use kernel_bypass_group_proj.Clients.Old.{old_main}

-- The loops end the program by returning 0.
abbrev pub finish : Outcome → Finish Session
finish undefined = crashed
finish (returned s) = finished s
finish (running s) = crashed

-- `if (argc != 4)`: the interface, the address and the message
abbrev pub four_arguments : List Bytes → Option (Bytes × Bytes × Bytes)
four_arguments (program ∷ interface ∷ client_ip ∷ msg ∷ []) = some (interface, client_ip, msg)
four_arguments argv = none

-- `if (argc != 3)`
abbrev pub three_arguments : List Bytes → Option (Bytes × Bytes)
three_arguments (program ∷ interface ∷ client_ip ∷ []) = some (interface, client_ip)
three_arguments argv = none

unfoldable pub client_program : Net → List Bytes → (ℕ → ℕ) → (ℕ → ℤ × Mem) → Mem → Finish Session
unfolding open_client client_main
client_program net argv rand recvfrom garbage = elim (four_arguments argv) [
  | none ↦ failed
  | some (interface, client_ip, msg) ↦
      open_client net interface client_ip (finish (client_main msg rand recvfrom garbage))
]

unfoldable pub rand_client_program :
    Net → List Bytes → List Bytes → (ℕ → ℕ) → (ℕ → ℤ × Mem) → Mem → Finish Session
unfolding open_client rand_client_main
rand_client_program net argv words rand recvfrom garbage = elim (three_arguments argv) [
  | none ↦ failed
  | some (interface, client_ip) ↦
      open_client net interface client_ip (finish (rand_client_main words rand recvfrom garbage))
]

unfoldable pub old_client_program : Net → List Bytes → (ℕ → ℤ × Mem) → Finish Session
unfolding open_client old_main
old_client_program net argv recvfrom = elim (four_arguments argv) [
  | none ↦ failed
  | some (interface, client_ip, msg) ↦
      open_client net interface client_ip (finish (old_main msg recvfrom))
]
