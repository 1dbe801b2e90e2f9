-- ===== src/Mother/Store/Groups/Members.antt =====
-- mother/store/groups.go: who is a member after an operator replaced a group's members.
use feast_watch.Prelude.{
  ℕ, ◌≡◌, refl, ◌∙◌, Bool, true, false, List, [], ◌∷◌, ◌++◌, ◌==◌, if◌then◌else◌, ◌&&◌, ◌||◌, not,
  any, keep_if, arith, Bool-cases, inl, inr,
}
use feast_watch.Mother.Store.Tables.{Member, Tables, ok}
use feast_watch.Mother.Store.Groups.{insert_members, set_group_servers, has_group, is_member}

any-append :
    (g k : ℕ) (xs ys : List Member)
    → any (λ m. m.group_id == g && m.server_id == k) (xs ++ ys) ≡ (
        any (λ m. m.group_id == g && m.server_id == k) xs
        || any (λ m. m.group_id == g && m.server_id == k) ys)
any-append g k [] ys = refl
any-append g k (x ∷ xs) ys = ground (arith, any-append g k xs ys)

any-cleared :
    (g h k : ℕ) (members : List Member)
    → any (λ m. m.group_id == g && m.server_id == k) (keep_if (λ m. not (m.group_id == h)) members)
      ≡ (if h == g then false else any (λ m. m.group_id == g && m.server_id == k) members)
any-cleared g h k [] = ground arith
any-cleared g h k (m ∷ members) = ground (arith, any-cleared g h k members)

already :
    (g h k id : ℕ) (members : List Member) (others : Bool)
    → any (λ m. m.group_id == h && m.server_id == id) members ≡ true
    → ((h == g && others) || any (λ m. m.group_id == g && m.server_id == k) members) ≡ (
        (h == g && (if id == k then true else others))
        || any (λ m. m.group_id == g && m.server_id == k) members)
already g h k id members others there = elim (Bool-cases (h == g)) [
  | inl same ↦ elim (Bool-cases (id == k)) [
    | inl it ↦
        let hg : h ≡ g = ground arith in
        let ik : id ≡ k = ground arith in
        let found : any (λ m. m.group_id == g && m.server_id == k) members ≡ true =
          rw (hg, ik) at there in
        rw (found) (ground arith)
    | inr other ↦ rw other refl
  ]
  | inr apart ↦ rw apart refl
]

any-insert_members :
    (g h k : ℕ) (ids : List ℕ) (members : List Member)
    → any (λ m. m.group_id == g && m.server_id == k) (insert_members h ids members) ≡ (
        (h == g && any (λ i. i == k) ids) || any (λ m. m.group_id == g && m.server_id == k) members)
unfolding insert_members
any-insert_members g h k [] members = ground arith
any-insert_members g h k (id ∷ ids) members =
    elim (Bool-cases (any (λ m. m.group_id == h && m.server_id == id) members)) [
      | inl there ↦ rw there (
          any-insert_members g h k ids members
          ∙ already g h k id members (any (λ i. i == k) ids) there)
      | inr absent ↦ rw absent (
          any-insert_members g h k ids _
          ∙ rw (any-append g k members (record { group_id = h; server_id = id } ∷ []))
              (ground arith))
    ]

module _ {V : Type 0} where
  -- Where the group is there and no statement fails, replacing its members succeeds: exactly the
  -- listed ids are its members then, whether or not a server has them, and no other group changes.
  pub members_are_replaced :
      (g : ℕ) (ids : List ℕ) (t : Tables V)
      → has_group g t ≡ true
      → (t' : Tables V) × (set_group_servers false false g ids t ≡ ok t')
        × ((h k : ℕ)
            → is_member h t' k ≡ (if g == h then any (λ i. i == k) ids else is_member h t k))
  unfolding set_group_servers
  members_are_replaced g ids t there = (replaced, rw there refl, listed)
    where
      replaced : Tables V
      replaced = record t {
        server_group_members =
            insert_members g ids (keep_if (λ m. not (m.group_id == g)) t.server_group_members);
      }

      kept : List Member
      kept = keep_if (λ m. not (m.group_id == g)) t.server_group_members

      listed :
          (h k : ℕ)
          → any (λ m. m.group_id == h && m.server_id == k) (insert_members g ids kept) ≡ (
              if g == h
              then any (λ i. i == k) ids
              else any (λ m. m.group_id == h && m.server_id == k) t.server_group_members)
      listed h k =
          any-insert_members h g k ids kept
          ∙ rw (any-cleared h g k t.server_group_members) (ground arith)
