-- ===== src/Config/Laws.antt =====
-- What `getConfig` makes of a file setting.cfg.
use hcmonitor.Prelude.{
  ◌==◌, ==_iff, ltb, if◌then◌else◌, Bool-cases, inl, inr, ◌≢◌, List, ℕ, zero, suc, ◌+◌, ◌<◌, ◌≤◌,
  ◌≡◌, ◌∙◌, refl, ap, ℤ, pos, ◌+ℤ◌, truthy, true, some, length, get_elem?, set, length-set,
  get_elem?-set_self, get_elem?-set_ne, arith, Option-cases,
}
use hcmonitor.Config.{
  Mconfig, Libconfig, max_label, read_int, label_rounds, read_labels, read_options, read_rate,
  read_pri, read_tail, get_config,
}

-- An array after the loop over the labels has run on it from index `n`.
unfoldable fill : (ℕ → ℤ) → ℕ → ℕ → List ℤ → List ℤ
fill f zero n xs = xs
fill f (suc rounds) n xs = fill f rounds (n + 1) (set xs n (f n))

add_one : (m : ℕ) → pos m +ℤ pos 1 ≡ pos (m + 1)
unfolding ◌+ℤ◌
add_one m = ground arith

-- The labels of two settings are the same.
record SameLabels (c t : Mconfig) : Type 0 where
  req_label : t.req_label ≡ c.req_label
  resp_label : t.resp_label ≡ c.resp_label
  label_count : t.label_count ≡ c.label_count

length-fill : (f : ℕ → ℤ) (rounds n : ℕ) (xs : List ℤ) → length (fill f rounds n xs) ≡ length xs
unfolding fill
length-fill f zero n xs = refl
length-fill f (suc rounds) n xs = length-fill f rounds (n + 1) _ ∙ length-set xs n (f n)

fill_below :
    (f : ℕ → ℤ) (rounds n : ℕ) (xs : List ℤ) (j : ℕ)
    → j < n
    → get_elem? (fill f rounds n xs) j ≡ get_elem? xs j
unfolding fill
fill_below f zero n xs j l = refl
fill_below f (suc rounds) n xs j l =
    fill_below f rounds (n + 1) _ j (omega arith) ∙ get_elem?-set_ne xs n j (f n) (λ e. omega arith)

fill_within :
    (f : ℕ → ℤ) (rounds n : ℕ) (xs : List ℤ) (j : ℕ)
    → n + rounds ≤ length xs
    → n ≤ j
    → j < n + rounds
    → get_elem? (fill f rounds n xs) j ≡ some (f j)
unfolding fill
fill_within f zero n xs j h l u = absurd (omega arith)
fill_within f (suc rounds) n xs j h l u = elim (Bool-cases (j == n)) [
  | inl e ↦
      let same = (==_iff j n).0 e in
      rw same (
        fill_below f rounds (n + 1) _ n (omega arith) ∙ get_elem?-set_self xs n (f n) (omega arith))
  | inr e ↦
      let apart : j ≢ n = λ q. ground (arith, q, e) in
      fill_within f rounds (n + 1) _ j (omega (arith, length-set xs n (f n))) (omega (arith, apart))
        (omega arith)
]

-- The lesser of the number of labels and MAXLABEL.
label_rounds-min :
    (lib : Libconfig) (k : ℕ)
    → label_rounds lib (pos k) ≡ (if ltb k max_label then k else max_label)
label_rounds-min lib zero = refl
label_rounds-min lib (suc zero) = refl
label_rounds-min lib (suc (suc n)) = ground arith

module _ (lib : Libconfig) where
  open lib use {read_file, lookup_int, lookup, setting_length, get_int_elem}

  read_labels-req_label :
      (rounds n : ℕ) (c : Mconfig)
      → (read_labels lib rounds n c).req_label
        ≡ fill (get_int_elem (lookup "request_label")) rounds n c.req_label
  unfolding read_labels fill
  read_labels-req_label zero n c = refl
  read_labels-req_label (suc rounds) n c = read_labels-req_label rounds (n + 1) _

  read_labels-resp_label :
      (rounds n : ℕ) (c : Mconfig)
      → (read_labels lib rounds n c).resp_label
        ≡ fill (get_int_elem (lookup "response_label")) rounds n c.resp_label
  unfolding read_labels fill
  read_labels-resp_label zero n c = refl
  read_labels-resp_label (suc rounds) n c = read_labels-resp_label rounds (n + 1) _

  read_labels-label_count :
      (rounds n : ℕ) (c : Mconfig) (m : ℕ)
      → c.label_count ≡ pos m
      → (read_labels lib rounds n c).label_count ≡ pos (m + rounds)
  unfolding read_labels
  read_labels-label_count zero n c m e = e ∙ ap pos (omega arith)
  read_labels-label_count (suc rounds) n c m e =
      read_labels-label_count rounds (n + 1) _ (m + 1) (rw (e, add_one m) refl)
      ∙ ap pos (omega arith)

  read_rate-SameLabels : (c : Mconfig) → SameLabels c (read_rate lib c)
  unfolding read_rate
  read_rate-SameLabels c = elim (Option-cases (lib.lookup_float "PriOffset")) [
    | inl e ↦ rw (e, read_rate) (record { req_label = refl; resp_label = refl; label_count = refl })
    | inr (d, e) ↦
        rw (e, read_rate) (record { req_label = refl; resp_label = refl; label_count = refl })
  ]

  read_pri-SameLabels : (ph pl : ℤ) (c : Mconfig) → SameLabels c (read_pri lib ph pl c)
  unfolding read_pri
  read_pri-SameLabels ph pl c = elim (Bool-cases (truthy c.enable_pri)) [
    | inl e ↦ rw e (record { req_label = refl; resp_label = refl; label_count = refl })
    | inr e ↦ rw e (record { req_label = refl; resp_label = refl; label_count = refl })
  ]

  read_tail-SameLabels : (ph pl : ℤ) (c : Mconfig) → SameLabels c (read_tail lib ph pl c)
  unfolding read_tail
  read_tail-SameLabels ph pl c =
      let offsets : Mconfig = record c {
        label_offset = read_int lib "LabelOffset" c.label_offset;
        pri_offset = read_int lib "PriOffset" c.pri_offset;
      } in
      let rated = read_rate lib offsets in
      let a = read_rate-SameLabels offsets in
      let b = read_pri-SameLabels ph pl (record rated {
        server_port = read_int lib "server_port" rated.server_port;
        pkt_len = read_int lib "payload_len" rated.pkt_len;
      }) in
      record {
        req_label = b.req_label ∙ a.req_label;
        resp_label = b.resp_label ∙ a.resp_label;
        label_count = b.label_count ∙ a.label_count;
      }

  -- The settings once the file was read.
  abbrev seen : ℤ → ℤ → Mconfig → Mconfig
  seen ph pl c = read_tail lib ph pl (
      read_labels lib (label_rounds lib (setting_length (lookup "request_label"))) 0
        (read_options lib c))

  get_config-seen :
      (ph pl http mcc : ℤ) (c : Mconfig)
      → read_file ≡ true
      → (get_config lib ph pl http mcc c).conf ≡ seen ph pl c
  unfolding get_config
  get_config-seen ph pl http mcc c ok = simp ok

  -- Where the file can be read, `getConfig` on settings whose arrays have MAXLABEL cells and whose
  -- label count is 0, and with a file of `k` request labels: it counts `k` labels, or MAXLABEL if that is
  -- less, keeps the arrays' lengths, and has every label that it counts in its cell of both arrays.
  pub get_config-labels :
      (ph pl http mcc : ℤ) (c : Mconfig) (k : ℕ)
      → read_file ≡ true
      → setting_length (lookup "request_label") ≡ pos k
      → length c.req_label ≡ max_label
      → length c.resp_label ≡ max_label
      → c.label_count ≡ pos 0
      → let t = (get_config lib ph pl http mcc c).conf in
        let n = if ltb k max_label then k else max_label in
        (t.label_count ≡ pos n)
        × (n ≤ max_label)
        × (length t.req_label ≡ max_label)
        × (length t.resp_label ≡ max_label)
        × ((j : ℕ)
            → j < n
            → (get_elem? t.req_label j ≡ some (get_int_elem (lookup "request_label") j))
              × (get_elem? t.resp_label j ≡ some (get_int_elem (lookup "response_label") j)))
  unfolding read_options
  get_config-labels ph pl http mcc c k ok length_is rq rs z =
      let n = if ltb k max_label then k else max_label in
      let le : n ≤ max_label = ground arith in
      let rounds : label_rounds lib (setting_length (lookup "request_label")) ≡ n =
        rw length_is (label_rounds-min lib k) in
      let start = read_options lib c in
      let read = read_labels lib n 0 start in
      let same = read_tail-SameLabels ph pl read in
      let req = same.req_label ∙ read_labels-req_label n 0 start in
      let resp = same.resp_label ∙ read_labels-resp_label n 0 start in
      let f = get_int_elem (lookup "request_label") in
      let g = get_int_elem (lookup "response_label") in
      rw (get_config-seen ph pl http mcc c ok, rounds)
        (
          same.label_count ∙ read_labels-label_count n 0 start 0 z ∙ ap pos (omega arith),
          le,
          rw req (length-fill f n 0 c.req_label ∙ rq),
          rw resp (length-fill g n 0 c.resp_label ∙ rs),
          λ j l. (
            rw req (
                fill_within f n 0 c.req_label j (omega (arith, le, rq)) (omega arith)
                  (omega (arith, l))),
            rw resp (
                fill_within g n 0 c.resp_label j (omega (arith, le, rs)) (omega arith)
                  (omega (arith, l))),
          ),
        )
