-- ===== src/AmStream/Descriptors.antt =====
-- The descriptors of UCX that the messages of a stream hold, from the callback that keeps them to the
-- drop of the messages that `wait_msg` has returned.
use async_ucx.Base.{
  ℕ, ◌≡◌, refl, sym, ap, ◌∙◌, Bool, true, false, Option, none, some, List, [], ◌∷◌, ◌++◌,
  append_assoc, append-nil, is_empty, arith, if◌then◌else◌,
}
use async_ucx.Ucs.{Status}
use async_ucx.Ucs.Codes.{ucs_ok, ucs_inprogress}
use async_ucx.Ffi.{Call, M, World, start, ◌>>◌, pure, running}
use async_ucx.Sync.{SegQueue, Notify}
use async_ucx.Am.{
  AmAttr, Slice, AmData, data_from_raw, RawMsg, msg_from_raw, drop_am_msg, drop_msg, drop_content,
  callback_status,
}
use async_ucx.Am.Release.{is_kept, callback_keeps}
use async_ucx.AmStream.{AmStreamInner, received}
use async_ucx.AmStream.Order.{
  Reach, begins, arrives, calls, resumes, leaves, drops_woken, unregisters, Reach_in_order,
}

-- The address that the drop of the data releases.
abbrev pub descriptor : Option AmData → List ℕ
descriptor none = []
descriptor (some (AmData.eager bytes)) = []
descriptor (some (AmData.data_msg s)) = s.addr ∷ []
descriptor (some (AmData.rndv s)) = s.addr ∷ []

abbrev pub descriptors : List RawMsg → List ℕ
descriptors [] = []
descriptors (m ∷ ms) = descriptor m.content ++ descriptors ms

-- The addresses that have been released, oldest first.
abbrev pub freed : List Call → List ℕ
freed [] = []
freed (Call.am_data_release v a ∷ t) = freed t ++ (a ∷ [])
freed (_ ∷ t) = freed t

-- What the status of the callback asks UCX to keep.
abbrev pub asked : Status → ℕ → List ℕ
asked ucs_inprogress a = a ∷ []
asked _ a = []

-- The drop of the messages that calls have returned, in this order.
abbrev pub drop_all : ℕ → List RawMsg → M (Unit {0})
drop_all worker [] = pure tt
drop_all worker (m ∷ ms) = drop_am_msg worker m >> drop_all worker ms

descriptors-append :
    (xs ys : List RawMsg) → descriptors (xs ++ ys) ≡ descriptors xs ++ descriptors ys
descriptors-append [] ys = refl
descriptors-append (m ∷ ms) ys =
    ap (λ (found : List ℕ). descriptor m.content ++ found) (descriptors-append ms ys)
    ∙ sym (append_assoc (descriptor m.content) (descriptors ms) (descriptors ys))

drop_one :
    (worker : ℕ) (d : Option AmData) (w : World)
    → freed (drop_content worker d w).1.trace ≡ freed w.trace ++ descriptor d
unfolding drop_content drop_msg running
drop_one worker none w = sym (append-nil (freed w.trace))
drop_one worker (some (AmData.eager bytes)) w = sym (append-nil (freed w.trace))
drop_one worker (some (AmData.data_msg s)) w = refl
drop_one worker (some (AmData.rndv s)) w = refl

goes_on :
    (worker : ℕ) (d : Option AmData) (k : M (Unit {0})) (w : World)
    → (drop_content worker d >> k) w ≡ k (drop_content worker d w).1
unfolding drop_content drop_msg running
goes_on worker none k w = refl
goes_on worker (some (AmData.eager bytes)) k w = refl
goes_on worker (some (AmData.data_msg s)) k w = refl
goes_on worker (some (AmData.rndv s)) k w = refl

freed-drop_all :
    (worker : ℕ) (ms : List RawMsg) (w : World)
    → freed (drop_all worker ms w).1.trace ≡ freed w.trace ++ descriptors ms
unfolding drop_am_msg pure
freed-drop_all worker [] w = sym (append-nil (freed w.trace))
freed-drop_all worker (m ∷ ms) w =
    let v = (drop_content worker m.content w).1 in
    ap (λ x. freed x.1.trace) (goes_on worker m.content (drop_all worker ms) w)
    ∙ freed-drop_all worker ms v
    ∙ ap (λ (found : List ℕ). found ++ descriptors ms) (drop_one worker m.content w)
    ∙ append_assoc (freed w.trace) (descriptor m.content) (descriptors ms)

module _ (c : AmAttr) (id : ℕ) (header : List ℕ) (slice : Slice) (reply attr : ℕ) where
  abbrev message : RawMsg
  message = msg_from_raw c id header slice reply attr

  held_if_kept :
      is_empty slice.bytes ≡ false
      → descriptor message.content ≡ (if is_kept message.content then slice.addr ∷ [] else [])
  unfolding msg_from_raw data_from_raw
  held_if_kept full = ground arith

  asked_held :
      is_empty slice.bytes ≡ false
      → asked (callback_status c attr) slice.addr ≡ descriptor message.content
  asked_held full =
      ap (λ s. asked s slice.addr) (callback_keeps c id header slice reply attr full)
      ∙ chosen (is_kept message.content)
      ∙ sym (held_if_kept full)
    where
      chosen :
          (b : Bool)
          → asked (if b then ucs_inprogress else ucs_ok) slice.addr
            ≡ (if b then slice.addr ∷ [] else [])
      chosen true = refl
      chosen false = refl

module _ (Q : SegQueue RawMsg) (N : Notify) (c : AmAttr) (fuel : ℕ) where
  -- The descriptors that the callback has asked UCX to keep, in the order of the messages.
  abbrev pub kept :
      {s : AmStreamInner Q N} {came taken : List RawMsg} → Reach Q N c fuel s came taken → List ℕ
  kept (begins id) = []
  kept (arrives {s} header slice reply attr r) =
      kept r ++ asked (received Q N c header slice reply attr s).0 slice.addr
  kept (calls r) = kept r
  kept (resumes r w) = kept r
  kept (leaves r w) = kept r
  kept (drops_woken r w) = kept r
  kept (unregisters r) = kept r

  -- Every message came with at least one byte of data.
  abbrev pub AllFull :
      {s : AmStreamInner Q N} {came taken : List RawMsg} → Reach Q N c fuel s came taken → Type 0
  AllFull (begins id) = Unit {0}
  AllFull (arrives header slice reply attr r) = (is_empty slice.bytes ≡ false) × AllFull r
  AllFull (calls r) = AllFull r
  AllFull (resumes r w) = AllFull r
  AllFull (leaves r w) = AllFull r
  AllFull (drops_woken r w) = AllFull r
  AllFull (unregisters r) = AllFull r

  kept_came :
      {s : AmStreamInner Q N} {came taken : List RawMsg} (r : Reach Q N c fuel s came taken)
      → AllFull r
      → kept r ≡ descriptors came
  unfolding received
  kept_came (begins id) full = refl
  kept_came (arrives {s} {came} header slice reply attr r) full =
      let m = message c s.id header slice reply attr in
      ap (λ (found : List ℕ). found ++ asked (callback_status c attr) slice.addr)
        (kept_came r full.1)
      ∙ ap (λ (found : List ℕ). descriptors came ++ found)
          (asked_held c s.id header slice reply attr full.0
            ∙ sym (append-nil (descriptor m.content)))
      ∙ sym (descriptors-append came (m ∷ []))
  kept_came (calls r) full = kept_came r full
  kept_came (resumes r w) full = kept_came r full
  kept_came (leaves r w) full = kept_came r full
  kept_came (drops_woken r w) full = kept_came r full
  kept_came (unregisters r) full = kept_came r full

  -- Where every message came with data: the descriptors that the callback has asked UCX to keep are, in
  -- order, those that the drops of the messages returned by `wait_msg` release, each as often as it was
  -- kept, and then those of the messages that the stream still holds.
  pub Reach_freed :
      {s : AmStreamInner Q N} {came taken : List RawMsg} (worker : ℕ)
      (r : Reach Q N c fuel s came taken)
      → AllFull r
      → kept r ≡ freed (drop_all worker taken start).1.trace ++ descriptors (Q.contents s.msgs)
  Reach_freed {s} {came} {taken} worker r full =
      kept_came r full
      ∙ ap descriptors (sym (Reach_in_order Q N c fuel r))
      ∙ descriptors-append taken (Q.contents s.msgs)
      ∙ ap (λ (found : List ℕ). found ++ descriptors (Q.contents s.msgs))
          (sym (freed-drop_all worker taken start))
