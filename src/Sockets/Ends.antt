-- ===== src/Sockets/Ends.antt =====
-- When the loops of the programs are reached.
use kernel_bypass_group_proj.Base.{
  ℕ, ◌≡◌, refl, sym, subst, Option, none, some, Bytes, Bool, true, false, if◌then◌else◌, codes,
}
use kernel_bypass_group_proj.Port.{nonzero, negative}
use kernel_bypass_group_proj.Sockets.{Net, Finish, failed, finished, open_client, open_server}

-- Every call for the socket succeeds, each by its own test.
pub record IsOpen (net : Net) (interface ip : Bytes) (size : ℕ) : Type 0 where
  pub socket : negative net.socket ≡ false
  pub device : nonzero (net.setsockopt interface size) ≡ false
  pub address : negative (net.bind ip 8080) ≡ false

-- A program ends with status 1 if it is not ready, and as P says if it is.
pub data Ends {A : Type 0} (Ready : Type 0) (P : A → Type 0) : Finish A → Type 0 where
  refused : (Ready → ⊥) → Ends Ready P failed
  ended : (a : A) → Ready → P a → Ends Ready P (finished a)

true-ne_false : (b : Bool) → b ≡ true → b ≡ false → ⊥
true-ne_false b t f = cc

module _ {A : Type 0} {P : A → Type 0} where
  -- one call that ends the program where it fails
  test-Ends :
      {Ready : Type 0} {rest : Finish A} (test : Bool)
      → (Ready → test ≡ false)
      → (test ≡ false → Ends Ready P rest)
      → Ends Ready P (if test then failed else rest)
  test-Ends true passes go = refused (λ ready. true-ne_false _ refl (passes ready))
  test-Ends false passes go = go refl

  pub open_client-Ends :
      (net : Net) (interface ip : Bytes) (a : A)
      → P a
      → Ends (IsOpen net interface ip 8) P (open_client net interface ip (finished a))
  unfolding open_client
  open_client-Ends net interface ip a p =
      test-Ends (negative net.socket) (λ is. is.socket)
        (λ s.
          test-Ends (nonzero (net.setsockopt interface 8)) (λ is. is.device)
            (λ d.
              test-Ends (negative (net.bind ip 8080)) (λ is. is.address)
                (λ b. ended a (record { socket = s; device = d; address = b }) p)))

  pub open_server-Ends :
      (net : Net) (a : A)
      → P a
      → Ends (IsOpen net (codes "veth2") (codes "10.1.0.3") 1024) P (open_server net (finished a))
  unfolding open_server
  open_server-Ends net a p =
      test-Ends (negative net.socket) (λ is. is.socket)
        (λ s.
          test-Ends (negative (net.bind (codes "10.1.0.3") 8080)) (λ is. is.address)
            (λ b.
              test-Ends (nonzero (net.setsockopt (codes "veth2") 1024)) (λ is. is.device)
                (λ d. ended a (record { socket = s; device = d; address = b }) p)))

-- The command line has the right number of arguments, and the socket is set up with two of them.
pub record IsCalled {B : Type 0} (net : Net) (arguments : Option B)
    (interface client_ip : B → Bytes) : Type 0 where
  pub value : B
  pub counted : arguments ≡ some value
  pub opened : IsOpen net (interface value) (client_ip value) 8

pub some-inj : {A : Type 0} (a b : A) → some a ≡ some b → a ≡ b
some-inj a b e = cc

none-ne_some : {A : Type 0} (a : A) → none ≡ some a → ⊥
none-ne_some a e = cc

module _ {A B : Type 0} (net : Net) (interface client_ip : B → Bytes) where
  same-Ends :
      (P : B → A → Type 0) (b : B) {r : Finish A}
      → Ends (IsOpen net (interface b) (client_ip b) 8) (P b) r
      → Ends
          (IsCalled net (some b) interface client_ip)
          (λ a. (called : IsCalled net (some b) interface client_ip) × P called.value a)
          r
  same-Ends P b (refused closed) = refused (λ called. closed (
      subst (λ v. IsOpen net (interface v) (client_ip v) 8)
        (some-inj called.value b (sym called.counted)) called.opened))
  same-Ends P b (ended a opened p) =
      let called : IsCalled net (some b) interface client_ip = record {
        value = b;
        counted = refl;
        opened = opened;
      } in
      ended a called (called, p)

  -- a program that goes on with its arguments, if it has them
  pub program-Ends :
      (P : B → A → Type 0) (arguments : Option B) (rest : B → Finish A)
      → ((b : B) → arguments ≡ some b → (a : A) × (rest b ≡ finished a) × P b a)
      → Ends
          (IsCalled net arguments interface client_ip)
          (λ a. (called : IsCalled net arguments interface client_ip) × P called.value a)
          (elim arguments [
            | none ↦ failed
            | some b ↦ open_client net (interface b) (client_ip b) (rest b)
          ])
  program-Ends P none rest go = refused (λ called. none-ne_some called.value called.counted)
  program-Ends P (some b) rest go =
      let (a, e, p) = go b refl in
      same-Ends P b (rw e (open_client-Ends net (interface b) (client_ip b) a p))
