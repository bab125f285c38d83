-- ===== src/Safe/Tests.antt =====
-- A world that answers at once, and the theorem in it.
use apy_core_public.Base.{String, ◌≡◌, refl, none, some, List, [], ◌∷◌, ap, arith}
use apy_core_public.Base.Texts.{to_lower}
use apy_core_public.Base.Dict.{lookup}
use apy_core_public.Script.Core.{Value, Call}
use apy_core_public.Script.Returns.{Returns}
use apy_core_public.Script.Sample.{
  sample_world, sample_tx, sample_receipt, sample_answers, or_undefined,
}
use apy_core_public.Safe.Receipts.{wait_for_safe_tx_receipt, hash_of, receipt_of}
use apy_core_public.Safe.Returned.{Responsive, IsReceipt, wait_for_safe_tx_receipt-Returns}

sample_answer :
    (c : Call) (h : List Call) (m : String)
    → c.method ≡ m
    → sample_world (c ∷ h) ≡ some (or_undefined (lookup m sample_answers))
unfolding sample_world
sample_answer c h m e = ap (λ x. some (or_undefined (lookup x sample_answers))) e

sample_world-Responsive : Responsive sample_world 0
unfolding lookup to_lower
sample_world-Responsive = record {
  goes_on = λ c h e. ("y", sample_answer c h "question" e, refl);
  pauses = λ c h e. (Value.undefined, sample_answer c h "sleep" e);
  checks = λ c h e. ("0xCa", sample_answer c h "utils.getAddress" e);
  confirmed = λ c h e le. ("0x22", ap hash_of (sample_answer c h "getSafeTxDetails" e));
  mined = λ c h e le. (sample_receipt, ap receipt_of (sample_answer c h "waitForTransaction" e));
}

wait_for_safe_tx_receipt-Returns_example :
    Returns sample_world IsReceipt
      (wait_for_safe_tx_receipt "0xC1" 1 sample_tx Value.undefined none none none)
      []
wait_for_safe_tx_receipt-Returns_example =
    wait_for_safe_tx_receipt-Returns sample_world 0 sample_world-Responsive "0xC1" 0 sample_tx
      "0xc0" Value.undefined none none none [] refl (omega arith)
