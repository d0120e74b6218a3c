-- ===== src/Address.antt =====
-- The addresses of lab/rpc/rpc.cc: the order of `sockaddr_in` and make_sockaddr, over the resolver of the
-- system. A string is its characters in front of the terminating zero.
use ds14_project.Base.{
  ℕ, zero, suc, ◌-◌, ap, ◌∙◌, ◌+◌, ◌*◌, ◌/◌, ◌%◌, ◌^◌, ◌<◌, ◌≤◌, ◌≡◌, ◌≢◌, refl, Bool, true, false,
  ◌&&◌, ◌||◌, List, [], ◌∷◌, ◌++◌, length, ltb, ◌==◌, if◌then◌else◌, Option, some, none, arith, All,
  ne→==,
}

-- `sin_addr.s_addr` and `sin_port`, as they stand in memory.
pub record SockAddr : Type 0 where
  pub s_addr : ℕ
  pub sin_port : ℕ

-- `operator<`
unfoldable pub before : SockAddr → SockAddr → Bool
before a b = ltb a.s_addr b.s_addr || (a.s_addr == b.s_addr && ltb a.sin_port b.sin_port)

-- inet_addr, with none for INADDR_NONE, gethostbyname with the length and the address that it gives,
-- and atoi.
pub record Resolver : Type 0 where
  pub inet_addr : List ℕ → Option ℕ
  pub gethostbyname : List ℕ → Option (ℕ × ℕ)
  pub atoi : List ℕ → ℕ

-- `htons` of the low 16 bits.
abbrev pub htons : ℕ → ℕ
htons x = x % 2 ^ 8 * 2 ^ 8 + x / 2 ^ 8 % 2 ^ 8

-- `index(s, ':')`: what stands in front of the first colon, and behind it.
unfoldable pub split_colon : List ℕ → Option (List ℕ × List ℕ)
split_colon [] = none
split_colon (x ∷ s) =
    let rest = split_colon s in
    if x == 58 then some ([], s) else elim rest [ none ↦ none | some (h, p) ↦ some (x ∷ h, p) ]

-- `char host[200]`, and a copy of characters to its start: the room that is left, or `none` where the
-- copy goes on behind the end of the array.
abbrev pub host_room : ℕ
host_room = 200

unfoldable pub copy_into : (room : ℕ) → List ℕ → Option ℕ
copy_into room [] = some room
copy_into zero (x ∷ s) = none
copy_into (suc room) (x ∷ s) = copy_into room s

-- What make_sockaddr comes to: an address, the exit for a name that is not found, or a host that is
-- written over the end of its array, which is undefined.
pub data Made : Type 0 where
  address : SockAddr → Made
  exits : Made
  overruns : Made

abbrev pub made : Option SockAddr → Made
made none = exits
made (some a) = address a

abbrev pub localhost : List ℕ
localhost = 49 ∷ 50 ∷ 55 ∷ 46 ∷ 48 ∷ 46 ∷ 48 ∷ 46 ∷ 49 ∷ []

module _ (o : Resolver) where
  -- `none` is the exit for a name that is not found.
  unfoldable pub resolve : (host : List ℕ) → Option ℕ
  resolve host = elim (o.inet_addr host) [
    | some a ↦ some a
    | none ↦ (elim (o.gethostbyname host) [
      | none ↦ none
      | some (h_length, a) ↦ if h_length == 4 then some a else none
    ])
  ]

  -- make_sockaddr of a host and a port.
  unfoldable pub make_sockaddr_of : (host port : List ℕ) → Option SockAddr
  make_sockaddr_of host port = elim (resolve host) [
    | none ↦ none
    | some a ↦ some (record { s_addr = a; sin_port = htons (o.atoi port) })
  ]

  -- make_sockaddr of both in one string.
  unfoldable pub make_sockaddr : List ℕ → Made
  make_sockaddr hostandport = elim (split_colon hostandport) [
    | none ↦ made (make_sockaddr_of localhost hostandport)
    | some (host, port) ↦ (elim (copy_into host_room (host ++ 0 ∷ [])) [
      | none ↦ overruns
      | some left ↦ made (make_sockaddr_of host port)
    ])
  ]

-- A string without a colon.
abbrev pub NoColon : List ℕ → Type 0
NoColon s = All (λ x. x ≢ 58) s

split_colon-append :
    (host port : List ℕ) → NoColon host → split_colon (host ++ 58 ∷ port) ≡ some (host, port)
unfolding split_colon
split_colon-append [] port h = refl
split_colon-append (x ∷ host) port (h, hs) = rw (ne→== x 58 h, split_colon-append host port hs) refl

split_colon-none : (s : List ℕ) → NoColon s → split_colon s ≡ none
unfolding split_colon
split_colon-none [] h = refl
split_colon-none (x ∷ s) (h, hs) = rw (ne→== x 58 h, split_colon-none s hs) refl

copy_into-none :
    (room : ℕ) (s : List ℕ)
    → (length s ≤ room → copy_into room s ≡ some (room - length s))
      × (room < length s → copy_into room s ≡ none)
unfolding copy_into
copy_into-none room [] = (λ h. ap some (omega arith), λ h. absurd (omega (arith, h)))
copy_into-none zero (x ∷ s) = (λ h. absurd (omega (arith, h)), λ h. refl)
copy_into-none (suc room) (x ∷ s) =
    let (fits, over) = copy_into-none room s in
    (λ h. fits (omega (arith, h)) ∙ ap some (omega (arith, h)), λ h. over (omega (arith, h)))

-- The order of the addresses is strict and total.
pub before_lem :
    (a b c : SockAddr)
    → (before a a ≡ false)
      × (before a b ≡ true → before b c ≡ true → before a c ≡ true)
      × (before a b ≡ false
          → before b a ≡ false
          → (a.s_addr ≡ b.s_addr) × (a.sin_port ≡ b.sin_port))
unfolding before
before_lem a b c = (ground arith, λ ab bc. ground (arith, ab, bc), λ ab ba. ground (arith, ab, ba))
