-- ===== src/Clients/Program/Runs.antt =====
-- How the clients end.
use kernel_bypass_group_proj.Base.{
  ℕ, ◌+◌, ◌≤◌, ◌≡◌, ◌≢◌, ap, subst, Bytes, List, [], ◌∷◌, some, length, All,
}
use kernel_bypass_group_proj.Base.Int.{ℤ}
use kernel_bypass_group_proj.Mem.{Mem}
use kernel_bypass_group_proj.Sockets.{Net}
use kernel_bypass_group_proj.Sockets.Ends.{IsCalled, Ends, some-inj, program-Ends}
use kernel_bypass_group_proj.Clients.Run.{IsReply, Progress, client_main-Progress}
use kernel_bypass_group_proj.Clients.{client_main}
use kernel_bypass_group_proj.Clients.Random.Keys.{IsRow, AsksFor, rand_client_requests}
use kernel_bypass_group_proj.Clients.Random.{csv_key_nums, rand_client_main}
use kernel_bypass_group_proj.Clients.Old.{old_main}
use kernel_bypass_group_proj.Clients.Old.Resends.{IsText, Resent, old_main-Resent}
use kernel_bypass_group_proj.Clients.Program.{
  finish, four_arguments, three_arguments, client_program, rand_client_program, old_client_program,
}

four_arguments-All :
    (P : Bytes → Type 0) (argv : List Bytes) (a : Bytes × Bytes × Bytes)
    → All P argv
    → four_arguments argv ≡ some a
    → P a.2
four_arguments-All P [] a h e = cc
four_arguments-All P (_ ∷ []) a h e = cc
four_arguments-All P (_ ∷ _ ∷ []) a h e = cc
four_arguments-All P (_ ∷ _ ∷ _ ∷ []) a h e = cc
four_arguments-All P (_ ∷ i ∷ ip ∷ msg ∷ []) a h e =
    subst (λ t. P t.2) (some-inj (i, ip, msg) a e) h.1.1.1.0
four_arguments-All P (_ ∷ _ ∷ _ ∷ _ ∷ _ ∷ _) a h e = cc

-- called with an interface, an address and a message
abbrev pub IsCalledFour : Net → List Bytes → Type 0
IsCalledFour net argv = IsCalled net (four_arguments argv) (λ a. a.0) (λ a. a.1)

abbrev pub IsCalledThree : Net → List Bytes → Type 0
IsCalledThree net argv = IsCalled net (three_arguments argv) (λ a. a.0) (λ a. a.1)

module _ (net : Net) (argv : List Bytes) where
  -- The client of client/client.cpp, for arguments of at most 1438 bytes, whatever rand gives, and
  -- where every call of recvfrom gives at least 10 bytes and fewer than its buffer has: it ends with
  -- status 1 if it is not called with an interface, an address and a message, or if a call for its
  -- socket fails by the test that the code has for it; else main returns, after 100000 calls of
  -- sendto, each with a memcached datagram that carries that message, and 400000 calls of recvfrom.
  pub client_program-Ends :
      (rand : ℕ → ℕ) (recvfrom : ℕ → ℤ × Mem) (garbage : Mem)
      → All (λ a. length a + 10 ≤ 1448) argv
      → ((i : ℕ) → IsReply 1448 (recvfrom i))
      → Ends
          (IsCalledFour net argv)
          (λ s.
            (called : IsCalledFour net argv) × Progress (λ m. m ≡ called.value.2) 100000 400000 s)
          (client_program net argv rand recvfrom garbage)
  unfolding client_program
  client_program-Ends rand recvfrom garbage fits replies =
      program-Ends net (λ a. a.0) (λ a. a.1) (λ a s. Progress (λ m. m ≡ a.2) 100000 400000 s)
        (four_arguments argv) (λ a. finish (client_main a.2 rand recvfrom garbage))
        (λ a e.
          let (s, ran, p) =
            client_main-Progress a.2 rand recvfrom garbage
              (four_arguments-All (λ x. length x + 10 ≤ 1448) argv a fits e) replies in
          (s, ap finish ran, p))

  -- The client of rand_client, for a file of 1 to 200 words, each a key of fewer than 32 bytes and
  -- none a line break, whatever rand gives, and where every call of recvfrom gives at least 10 bytes
  -- and fewer than its buffer has: it ends with status 1 if it is not called with an interface and
  -- an address, or if a call for its socket fails by the test that the code has for it; else main
  -- returns, after 1000 calls of sendto and 4000 of recvfrom, and every datagram sent is a memcached
  -- datagram with a message from which the strip_keys of the middlebox reads four keys, each a row
  -- of the file.
  pub rand_client_program-Ends :
      (buffer : Bytes) (words : List Bytes) (rand : ℕ → ℕ) (recvfrom : ℕ → ℤ × Mem) (garbage : Mem)
      → All IsRow words
      → words ≢ []
      → length words ≤ csv_key_nums
      → ((i : ℕ) → IsReply 1024 (recvfrom i))
      → Ends
          (IsCalledThree net argv)
          (λ s. IsCalledThree net argv × Progress (AsksFor buffer words) 1000 4000 s)
          (rand_client_program net argv words rand recvfrom garbage)
  unfolding rand_client_program
  rand_client_program-Ends buffer words rand recvfrom garbage rows ne few replies =
      program-Ends net (λ a. a.0) (λ a. a.1) (λ a s. Progress (AsksFor buffer words) 1000 4000 s)
        (three_arguments argv) (λ a. finish (rand_client_main words rand recvfrom garbage))
        (λ a e.
          let (s, ran, p) =
            rand_client_requests buffer words rand recvfrom garbage rows ne few replies in
          (s, ap finish ran, p))

  -- The client of client/old_client.cpp, where every call of recvfrom gives fewer bytes than its
  -- buffer has: it ends with status 1 if it is not called with an interface, an address and a
  -- message, or if a call for its socket fails by the test that the code has for it; else main
  -- returns, after 200 calls of sendto, each with that message, and 200 calls of recvfrom.
  pub old_client_program-Ends :
      (recvfrom : ℕ → ℤ × Mem)
      → ((i : ℕ) → IsText (recvfrom i))
      → Ends
          (IsCalledFour net argv)
          (λ s. (called : IsCalledFour net argv) × Resent called.value.2 200 200 s)
          (old_client_program net argv recvfrom)
  unfolding old_client_program
  old_client_program-Ends recvfrom texts =
      program-Ends net (λ a. a.0) (λ a. a.1) (λ a s. Resent a.2 200 200 s) (four_arguments argv)
        (λ a. finish (old_main a.2 recvfrom))
        (λ a e. let (s, ran, p) = old_main-Resent a.2 recvfrom texts in (s, ap finish ran, p))
