-- ===== src/Arb/Evidence/Read.antt =====
-- evidence.go, `readEvidenceRange`: a bounded read of one evidence item, under the budget of an
-- opportunity. A read of a regular file fills the buffer, or reaches the end of the file.
use adjudication.Prelude.{
  ℕ, ◌+◌, Result, ok, err, ◌>>=◌, ◌>>◌, reject_if, or_fail, length, take, drop,
}
use adjudication.Prelude.Int.{ℤ, pos, pos_part, ltb_ℤ, leb_ℤ, int_add}
use adjudication.Prelude.Text.{Text, msg}
use adjudication.Arb.Policy.{Policy}
use adjudication.Arb.Context.{RunContext, Bytes}
use adjudication.Arb.Context.Host.{Host}
use adjudication.Arb.Evidence.Registry.{stat_evidence, evidence_path}

pub record EvidenceReadBudget : Type 0 where
  pub bytes : ℕ
  pub reads : ℕ

pub record EvidenceRange : Type 0 where
  pub evidence_id : Text
  pub offset : ℕ
  pub length : ℕ
  pub total_size_bytes : ℕ
  pub sha256 : Text
  pub mime_type : Text
  pub content : Bytes

-- The checks that need only the limits.
unfoldable pub check_range : Policy → ℤ → ℤ → EvidenceReadBudget → Result Text (Unit {0})
check_range policy offset len budget = do
  reject_if (ltb_ℤ offset (pos 0)) (msg "offset must be non-negative")
  reject_if (leb_ℤ len (pos 0)) (msg "length must be positive")
  reject_if (ltb_ℤ policy.max_evidence_read_bytes len)
      (msg "evidence_read_limit_exceeded: requested length")
  reject_if (leb_ℤ policy.max_evidence_reads_per_opportunity (pos budget.reads))
      (msg "evidence_read_limit_exceeded: read count limit")
  reject_if (ltb_ℤ policy.max_evidence_read_bytes_per_opportunity (int_add (pos budget.bytes) len))
      (msg "evidence_read_limit_exceeded: opportunity byte budget")

module _ (host : Host) where
  -- The lines after the checks: the range of the item's bytes.
  unfoldable pub fetch_range : RunContext host.World → Text → ℤ → ℤ → Result Text EvidenceRange
  fetch_range c evidence_id offset len = do
    meta ← stat_evidence host c evidence_id
    path ← evidence_path c.output_dir meta
    bytes ← or_fail (host.content c.world path) (msg "open evidence")
    reject_if (ltb_ℤ (pos meta.size_bytes) offset)
        (msg "invalid_evidence_range: offset exceeds size")
    let raw = take (pos_part len) (drop (pos_part offset) bytes)
    ok record {
      evidence_id = meta.evidence_id;
      offset = pos_part offset;
      length = length raw;
      total_size_bytes = meta.size_bytes;
      sha256 = meta.sha256;
      mime_type = meta.mime_type;
      content = raw;
    }

  -- `budget.reads++` and `budget.bytes += n`.
  charge :
      EvidenceReadBudget
      → Result Text EvidenceRange
      → EvidenceReadBudget × Result Text EvidenceRange
  charge budget (ok r) =
      (record { bytes = budget.bytes + r.length; reads = budget.reads + 1 }, ok r)
  charge budget (err e) = (budget, err e)

  unfoldable pub read_evidence_range :
      RunContext host.World
      → Text
      → ℤ
      → ℤ
      → EvidenceReadBudget
      → EvidenceReadBudget × Result Text EvidenceRange
  unfolding charge
  read_evidence_range c evidence_id offset len budget =
      charge budget (check_range c.policy offset len budget >> fetch_range c evidence_id offset len)
