-- ===== src/Mother/Store/Servers/Lookup.antt =====
-- mother/store/servers.go: which row an UPDATE changes.
use feast_watch.Prelude.{
  ℕ, ◌≡◌, false, Option, none, some, List, [], ◌∷◌, ◌==◌, if◌then◌else◌, any, find_if, arith,
}
use feast_watch.Mother.Store.Tables.{Server}
use feast_watch.Mother.Store.Servers.{update_server}

abbrev pub map_option : {A : Type 0} → (A → A) → Option A → Option A
map_option f none = none
map_option f (some a) = some (f a)

-- A change that keeps the id changes the row with that id and no other.
pub find-update_server :
    (k id : ℕ) (f : Server → Server) (servers : List Server)
    → ((s : Server) → (f s).id ≡ s.id)
    → find_if (λ s. s.id == k) (update_server id f servers) ≡ (
        if id == k
        then map_option f (find_if (λ s. s.id == k) servers)
        else find_if (λ s. s.id == k) servers)
unfolding update_server
find-update_server k id f [] keeps = ground arith
find-update_server k id f (s ∷ servers) keeps =
    ground (arith, find-update_server k id f servers keeps, keeps s)

any-find :
    (k : ℕ) (servers : List Server)
    → any (λ s. s.id == k) servers ≡ false
    → find_if (λ s. s.id == k) servers ≡ none
any-find k [] h = ground arith
any-find k (s ∷ servers) h = ground (arith, any-find k servers)
