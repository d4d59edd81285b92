-- ===== src/Arb/Evidence/Budget.antt =====
-- The reads of one opportunity stay within its budget, and return the bytes that were registered.
pub mod Sequence
use adjudication.Prelude.{
  ℕ, ◌+◌, ◌≤◌, ◌^◌, true, false, some, List, [], ◌∷◌, Result, ok, err, ◌≡◌, length, take, drop,
  arith, All, length-take, ap, sym, subst, Result-cases, inl, inr,
}
use adjudication.Prelude.Int.{ℤ, pos, negsuc, pos_part, ◌≤ℤ◌, ◌<ℤ◌, int_add-pos}
use adjudication.Prelude.Text.{Text, trim_space, text_eq, text_eq→eq}
use adjudication.Prelude.Assoc.{lookup}
use adjudication.Arb.Policy.{Policy}
use adjudication.Arb.Policy.Validation.{IsValid}
use adjudication.Arb.Context.{RunContext, EvidenceMeta, Bytes}
use adjudication.Arb.Context.Host.{Host}
use adjudication.Arb.Evidence.Registry.{stat_evidence, evidence_path, is_private}
use adjudication.Arb.Evidence.Read.{
  EvidenceReadBudget, EvidenceRange, check_range, fetch_range, read_evidence_range,
}

-- The budget has not been overdrawn.
pub record Within (p : Policy) (b : EvidenceReadBudget) : Type 0 where
  pub bytes_within : pos b.bytes ≤ℤ p.max_evidence_read_bytes_per_opportunity
  pub reads_within : pos b.reads ≤ℤ p.max_evidence_reads_per_opportunity

-- What an accepted request leaves room for.
check_range_room :
    (p : Policy) (offset len : ℤ) (b : EvidenceReadBudget)
    → IsValid p
    → p.max_evidence_read_bytes_per_opportunity <ℤ pos (2 ^ 62)
    → Within p b
    → check_range p offset len b ≡ ok tt
    → (pos 0 ≤ℤ offset)
      × (pos 0 <ℤ len)
      × (len ≤ℤ p.max_evidence_read_bytes)
      × (pos (b.bytes + pos_part len) ≤ℤ p.max_evidence_read_bytes_per_opportunity)
      × (pos (b.reads + 1) ≤ℤ p.max_evidence_reads_per_opportunity)
unfolding check_range
check_range_room p offset (pos n) b v small w h =
    ground (arith, v.read_within, int_add-pos b.bytes n)
check_range_room p offset (negsuc n) b v small w h = ground arith

within_of_positive : (z : ℤ) (n : ℕ) → pos 0 <ℤ z → n ≤ pos_part z → pos n ≤ℤ z
within_of_positive z n h k = ground arith

check_range_len :
    (p : Policy) (offset len : ℤ) (b : EvidenceReadBudget)
    → check_range p offset len b ≡ ok tt
    → (pos 0 <ℤ len) × (len ≤ℤ p.max_evidence_read_bytes)
unfolding check_range
check_range_len p offset len b h = ground arith

module _ (host : Host) where
  -- A range that was read: public evidence, bytes that hash to the registered digest and have the
  -- registered size, and the requested part of them.
  pub record Genuine (c : RunContext host.World) (id : Text) (offset len : ℤ) (r : EvidenceRange)
      : Type 0 where
    pub meta : EvidenceMeta
    pub bytes : Bytes
    pub path : Text
    pub known : lookup (trim_space id) c.evidence_by_id ≡ some meta
    pub public : is_private meta ≡ false
    pub located : evidence_path c.output_dir meta ≡ ok path
    pub stored : host.content c.world path ≡ some bytes
    pub digest : host.sha256 bytes ≡ meta.sha256
    pub size : length bytes ≡ meta.size_bytes
    pub part : r.content ≡ take (pos_part len) (drop (pos_part offset) bytes)
    pub described :
        (r.evidence_id ≡ meta.evidence_id)
        × (r.sha256 ≡ meta.sha256)
        × (r.total_size_bytes ≡ meta.size_bytes)
        × (r.length ≡ length r.content)

  stat_evidence_meta :
      (c : RunContext host.World) (id : Text) (meta : EvidenceMeta)
      → stat_evidence host c id ≡ ok meta
      → (lookup (trim_space id) c.evidence_by_id ≡ some meta) × (is_private meta ≡ false)
  unfolding stat_evidence
  stat_evidence_meta c id meta h = ground arith

  -- The checks on the stored bytes, at the path and the bytes that the range is read from.
  stat_evidence_bytes :
      (c : RunContext host.World) (id path : Text) (meta : EvidenceMeta) (bytes : Bytes)
      → stat_evidence host c id ≡ ok meta
      → evidence_path c.output_dir meta ≡ ok path
      → host.content c.world path ≡ some bytes
      → (text_eq (host.sha256 bytes) meta.sha256 ≡ true) × (length bytes ≡ meta.size_bytes)
  unfolding stat_evidence
  stat_evidence_bytes c id path meta bytes h located stored = ground arith

  fetch_range-eq_ok :
      (c : RunContext host.World) (id : Text) (offset len : ℤ) (r : EvidenceRange)
      → fetch_range host c id offset len ≡ ok r
      → (meta : EvidenceMeta) × (path : Text) × (bytes : Bytes) × (stat_evidence host c id
          ≡ ok meta)
        × (evidence_path c.output_dir meta ≡ ok path)
        × (host.content c.world path ≡ some bytes)
        × (r.content ≡ take (pos_part len) (drop (pos_part offset) bytes))
        × ((r.evidence_id ≡ meta.evidence_id)
            × (r.sha256 ≡ meta.sha256)
            × (r.total_size_bytes ≡ meta.size_bytes)
            × (r.length ≡ length r.content))
  unfolding fetch_range
  fetch_range-eq_ok c id offset len r h = ground arith

  fetch_range-Genuine :
      (c : RunContext host.World) (id : Text) (offset len : ℤ) (r : EvidenceRange)
      → fetch_range host c id offset len ≡ ok r
      → Genuine c id offset len r
  fetch_range-Genuine c id offset len r h =
      let (meta, path, bytes, stat, located, stored, part, described) =
        fetch_range-eq_ok c id offset len r h in
      let (known, public) = stat_evidence_meta c id meta stat in
      let (same, size) = stat_evidence_bytes c id path meta bytes stat located stored in
      record {
        meta = meta;
        bytes = bytes;
        path = path;
        known = known;
        public = public;
        located = located;
        stored = stored;
        digest = text_eq→eq (host.sha256 bytes) meta.sha256 same;
        size = size;
        part = part;
        described = described;
      }

  fetch_range_length :
      (c : RunContext host.World) (id : Text) (offset len : ℤ) (r : EvidenceRange)
      → fetch_range host c id offset len ≡ ok r
      → r.length ≤ pos_part len
  fetch_range_length c id offset len r h =
      let g = fetch_range-Genuine c id offset len r h in
      omega (
        arith,
        g.described,
        ap length g.part,
        length-take (pos_part len) (drop (pos_part offset) g.bytes),
      )

  -- Under an accepted policy whose byte budget is below 2^62, every call of a read keeps an
  -- opportunity within its budget.
  pub read_evidence_range-Within :
      (c : RunContext host.World) (id : Text) (offset len : ℤ) (b : EvidenceReadBudget)
      → IsValid c.policy
      → c.policy.max_evidence_read_bytes_per_opportunity <ℤ pos (2 ^ 62)
      → Within c.policy b
      → Within c.policy (read_evidence_range host c id offset len b).0
  unfolding read_evidence_range
  read_evidence_range-Within c id offset len b v small w =
      elim (Result-cases (check_range c.policy offset len b)) [
        | inr (e, p) ↦ rw (p, read_evidence_range) w
        | inl (u, p) ↦ elim (Result-cases (fetch_range host c id offset len)) [
          | inr (e, q) ↦ rw (p, q, read_evidence_range) w
          | inl (r, q) ↦
              rw (p, q, read_evidence_range)
                (let (_, _, _, room, reads) = check_range_room c.policy offset len b v small w p in
                  let n = fetch_range_length c id offset len r q in
                  record { bytes_within = omega arith; reads_within = omega arith })
        ]
      ]

  pub read_evidence_range-eq_ok :
      (c : RunContext host.World) (id : Text) (offset len : ℤ) (b : EvidenceReadBudget)
      (r : EvidenceRange)
      → (read_evidence_range host c id offset len b).1 ≡ ok r
      → (check_range c.policy offset len b ≡ ok tt)
        × (fetch_range host c id offset len ≡ ok r)
        × ((read_evidence_range host c id offset len b).0
            ≡ record { bytes = b.bytes + r.length; reads = b.reads + 1 })
  unfolding read_evidence_range
  read_evidence_range-eq_ok c id offset len b r h = ground arith

  -- A range that is returned is the requested part of public evidence whose bytes hash to the
  -- registered digest and have the registered size, is not longer than was asked for nor than the
  -- limit of one read, and is charged to the budget.
  pub read_evidence_range-Genuine :
      (c : RunContext host.World) (id : Text) (offset len : ℤ) (b : EvidenceReadBudget)
      (r : EvidenceRange)
      → (read_evidence_range host c id offset len b).1 ≡ ok r
      → Genuine c id offset len r
        × (pos r.length ≤ℤ len)
        × (len ≤ℤ c.policy.max_evidence_read_bytes)
        × ((read_evidence_range host c id offset len b).0
            ≡ record { bytes = b.bytes + r.length; reads = b.reads + 1 })
  read_evidence_range-Genuine c id offset len b r h =
      let (checked, fetched, charged) = read_evidence_range-eq_ok c id offset len b r h in
      let (positive, limited) = check_range_len c.policy offset len b checked in
      (
        fetch_range-Genuine c id offset len r fetched,
        within_of_positive len r.length positive (fetch_range_length c id offset len r fetched),
        limited,
        charged,
      )
