-- ===== src/Telemetry/Datagrams/Window.antt =====
-- The loss window holds the last outcomes, and no more than it may.
use sc_transport.Base.{
  ℕ, zero, suc, ◌+◌, ◌-◌, ◌≤◌, ◌<◌, ◌⊎◌, append-nil, ◌≡◌, refl, ap, ◌∙◌, arith, Bool, List, [], ◌∷◌,
  ◌++◌, length, drop, ltb, Bool-cases, inl, inr, length-append, append_assoc, ltb→lt,
}
use sc_transport.Telemetry.Datagrams.{QuicDatagrams, record_loss_sample}

abbrev pub IsWindowed : {F C : Type 0} → QuicDatagrams F C → Type 0
IsWindowed s = length s.loss_window ≤ s.loss_window_size

-- The samples of one event after the other.
unfoldable pub record_loss_samples :
    {F C : Type 0} → QuicDatagrams F C → List Bool → QuicDatagrams F C
record_loss_samples s [] = s
record_loss_samples s (delivered ∷ rest) = record_loss_samples (record_loss_sample s delivered) rest

drop_one :
    (w : List Bool) (x : Bool) (xs : List Bool)
    → drop 1 (w ++ (x ∷ [])) ++ xs ≡ drop 1 (w ++ (x ∷ xs))
drop_one [] x xs = refl
drop_one (y ∷ w) x xs = append_assoc w (x ∷ []) xs

drop-drop_one : (n : ℕ) (w : List Bool) → drop n (drop 1 w) ≡ drop (suc n) w
drop-drop_one zero [] = refl
drop-drop_one (suc n) [] = refl
drop-drop_one n (y ∷ w) = refl

length-drop_one : (w : List Bool) (x : Bool) → length (drop 1 (w ++ (x ∷ []))) ≡ length w
length-drop_one [] x = refl
length-drop_one (y ∷ w) x = omega (arith, length-append w (x ∷ []))

module _ {F C : Type 0} where
  pub record_loss_sample-IsWindowed :
      (s : QuicDatagrams F C) (x : Bool) → IsWindowed s → IsWindowed (record_loss_sample s x)
  unfolding record_loss_sample
  record_loss_sample-IsWindowed s x h =
      ground (arith, length-append s.loss_window (x ∷ []), length-drop_one s.loss_window x)

  -- one step of the window, while it fills and when it is full
  record_loss_sample-cases :
      (s : QuicDatagrams F C) (x : Bool)
      → IsWindowed s
      → (length s.loss_window < s.loss_window_size)
          × ((record_loss_sample s x).loss_window ≡ s.loss_window ++ (x ∷ []))
        ⊎ (length s.loss_window ≡ s.loss_window_size)
          × ((record_loss_sample s x).loss_window ≡ drop 1 (s.loss_window ++ (x ∷ [])))
  unfolding record_loss_sample
  record_loss_sample-cases s x h =
      let window = s.loss_window ++ (x ∷ []) in
      let long = length-append s.loss_window (x ∷ []) in
      elim (Bool-cases (ltb s.loss_window_size (length window))) [
        | inl full ↦
            inr (omega (arith, long, ltb→lt s.loss_window_size (length window) full), rw full refl)
        | inr free ↦ inl (ground (arith, long, free), rw free refl)
      ]

  record_loss_sample-size :
      (s : QuicDatagrams F C) (x : Bool)
      → (record_loss_sample s x).loss_window_size ≡ s.loss_window_size
  unfolding record_loss_sample
  record_loss_sample-size s x = refl

  -- From a window of at most `loss_window_size` samples on, the window after any further samples
  -- is what is left of all of them when as many are dropped from the front as there are more than
  -- `loss_window_size`.
  pub loss_window-record_loss_samples :
      (s : QuicDatagrams F C) (xs : List Bool)
      → IsWindowed s
      → (record_loss_samples s xs).loss_window
        ≡ drop (length s.loss_window + length xs - s.loss_window_size) (s.loss_window ++ xs)
  unfolding record_loss_samples
  loss_window-record_loss_samples s [] h =
      let all : length s.loss_window + 0 - s.loss_window_size ≡ 0 = omega arith in
      rw (all, append-nil s.loss_window) refl
  loss_window-record_loss_samples s (x ∷ xs) h =
      let w = s.loss_window in
      let n = s.loss_window_size in
      let s' = record_loss_sample s x in
      let ih = loss_window-record_loss_samples s' xs (record_loss_sample-IsWindowed s x h) in
      let size = record_loss_sample-size s x in
      elim (record_loss_sample-cases s x h) [
        | inl (free, grown) ↦
            (let k : length s'.loss_window + length xs - s'.loss_window_size
                  ≡ length w + suc (length xs) - n =
                omega (arith, size, ap length grown, length-append w (x ∷ [])) in
              let l : s'.loss_window ++ xs ≡ w ++ (x ∷ xs) =
                rw grown (append_assoc w (x ∷ []) xs) in
              ih ∙ (λ i. drop (k i) (l i)))
        | inr (full, slid) ↦
            (let k : length s'.loss_window + length xs - s'.loss_window_size ≡ length xs =
                omega (arith, size, ap length slid, length-drop_one w x) in
              let l : s'.loss_window ++ xs ≡ drop 1 (w ++ (x ∷ xs)) = rw slid (drop_one w x xs) in
              let m : suc (length xs) ≡ length w + suc (length xs) - n = omega arith in
              ih
              ∙ (λ i. drop (k i) (l i))
              ∙ drop-drop_one (length xs) (w ++ (x ∷ xs))
              ∙ (λ i. drop (m i) (w ++ (x ∷ xs))))
      ]
