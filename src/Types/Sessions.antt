-- ===== src/Types/Sessions.antt =====
-- Which transfers share a token: `Hash for TransferMetadata` of cyphal/src/transfer/mod.rs.
use cyphal_rs.Base.{
  ℕ, ◌≡◌, ◌↔◌, Option-cases, inl, inr, refl, sym, ap, ◌∙◌, some, ◌==◌, if◌then◌else◌,
}
use cyphal_rs.Types.{
  NodeId, Priority, priority_as_u8, exceptional, immediate, fast, high, nominal, low, slow,
  optional, TransferKind, kind_as_u8, message, request, response, TransferMetadata,
}
use cyphal_rs.Types.Hashing.{hash_writes}

-- The priority and the kind that a discriminant stands for.
abbrev priority_at : ℕ → Priority
priority_at n =
    if n == 0
    then exceptional
    else if n == 1
    then immediate
    else if n == 2
    then fast
    else if n == 3
    then high
    else if n == 4
    then nominal
    else if n == 5
    then low
    else if n == 6
    then slow
    else optional

priority_at_lem : (p : Priority) → priority_at (priority_as_u8 p) ≡ p
priority_at_lem exceptional = refl
priority_at_lem _ = refl

abbrev kind_at : ℕ → TransferKind
kind_at n = if n == 0 then message else if n == 1 then response else request

kind_at_lem : (k : TransferKind) → kind_at (kind_as_u8 k) ≡ k
kind_at_lem message = refl
kind_at_lem _ = refl

module _ {I : Type 0} where
  -- Two transfers of one session: all but the timestamp agrees.
  pub record SameSession (a b : TransferMetadata I) : Type 0 where
    pub priority_eq : a.priority ≡ b.priority
    pub kind_eq : a.transfer_kind ≡ b.transfer_kind
    pub port_eq : a.port_id ≡ b.port_id
    pub source_eq : a.source_node_id ≡ b.source_node_id
    pub destination_eq : a.destination_node_id ≡ b.destination_node_id
    pub transfer_id_eq : a.transfer_id ≡ b.transfer_id

  hash_writes_same : (a b : TransferMetadata I) → SameSession a b → hash_writes a ≡ hash_writes b
  unfolding hash_writes
  hash_writes_same a b same =
      rw
        (
          same.priority_eq, same.kind_eq, same.port_eq, same.source_eq, same.destination_eq,
          same.transfer_id_eq,
        )
        refl

  hash_writes_tail :
      (a b : TransferMetadata I) (i j : NodeId)
      → a.source_node_id ≡ some i
      → b.source_node_id ≡ some j
      → hash_writes a ≡ hash_writes b
      → (priority_as_u8 a.priority ≡ priority_as_u8 b.priority)
        × (kind_as_u8 a.transfer_kind ≡ kind_as_u8 b.transfer_kind)
        × (i ≡ j)
        × (a.port_id ≡ b.port_id)
        × (a.destination_node_id ≡ b.destination_node_id)
        × (a.transfer_id ≡ b.transfer_id)
  unfolding hash_writes
  hash_writes_tail a b i j ai bj e = elim (Option-cases a.destination_node_id) [
    | inl no_a ↦ elim (Option-cases b.destination_node_id) [
      | inl no_b ↦ let h = rw (ai, bj, no_a, no_b) at e in (cc, cc, cc, cc, cc, cc)
      | inr (d, some_b) ↦ let h = rw (ai, bj, no_a, some_b) at e in cc
    ]
    | inr (c, some_a) ↦ elim (Option-cases b.destination_node_id) [
      | inl no_b ↦ let h = rw (ai, bj, some_a, no_b) at e in cc
      | inr (d, some_b) ↦ let h = rw (ai, bj, some_a, some_b) at e in (cc, cc, cc, cc, cc, cc)
    ]
  ]

  -- Two transfers from known nodes feed the same words to the hasher exactly if they agree in all but
  -- the timestamp.
  pub hash_writes_iff :
      (a b : TransferMetadata I) (i j : NodeId)
      → a.source_node_id ≡ some i
      → b.source_node_id ≡ some j
      → (hash_writes a ≡ hash_writes b) ↔ SameSession a b
  hash_writes_iff a b i j ai bj = (
    λ e.
        let (p, k, s, port, d, tid) = hash_writes_tail a b i j ai bj e in
        record {
          priority_eq =
              sym (priority_at_lem a.priority) ∙ ap priority_at p ∙ priority_at_lem b.priority;
          kind_eq = sym (kind_at_lem a.transfer_kind) ∙ ap kind_at k ∙ kind_at_lem b.transfer_kind;
          port_eq = port;
          source_eq = ai ∙ ap some s ∙ sym bj;
          destination_eq = d;
          transfer_id_eq = tid;
        },
    hash_writes_same a b,
  )
