-- ===== src/TraceStore/Tail.antt =====
-- internal/tracestore/store.go: readLastNFromFile keeps the last lines of a file.
use mathlib.Core.List.{reverse, reverse_aux, reverse-cons}
use native.Mathlib.Nat.{mod-eq_of_lt}
use native.Mathlib.Decide.{dec_lt}
use llms_proxy.Base.{
  ℕ, zero, suc, ◌+◌, ◌-◌, ◌%◌, ◌≤◌, ◌<◌, ◌≡◌, refl, sym, ap, subst, ◌∙◌, inl, inr, Bool, Bool-cases,
  leb, if◌then◌else◌, Option, none, some, List, [], ◌∷◌, ◌++◌, map, String, length, get_or, take,
  length-modify, length-take-le, map-take, take-take-suc, length-take_cases, arith,
}
use llms_proxy.TraceStore.{TraceRecord, cons_found}
use llms_proxy.TraceStore.Slots.{
  InOrder, InOrder-write, slot, slot-below, slot-above, mod_once, next_lt,
}
use llms_proxy.TraceStore.Query.{
  max_line_size, Buffer, scan_line, scan_lines, lines_of, parse_slot, extract,
  read_last_n_from_file, no_lines,
}

-- Where the oldest line stands.
oldest_below :
    (n next filled : ℕ) → next < n → filled ≤ next → (next + n - filled) % n ≡ next - filled
oldest_below n next filled h k =
    omega (arith, mod_once (next + n - filled) n (omega arith) (omega arith))

oldest_above :
    (n next filled : ℕ) → next < filled → filled ≤ n → (next + n - filled) % n ≡ next + n - filled
oldest_above n next filled h k = mod-eq_of_lt {n = next + n - filled} {m = n} (omega arith)

-- Of a file's buffer that starts at the oldest line, the (i + 1)-th line is the j-th newest.
slot-oldest_first :
    (n next filled i j : ℕ)
    → next < n
    → filled ≤ n
    → i + suc j ≡ filled
    → ((next + n - filled) % n + i) % n ≡ slot n next j
slot-oldest_first n next filled i j next_in fits e = elim (dec_lt next filled) [
  | no q ↦
      let s = oldest_below n next filled next_in (omega arith) in
      omega (
        arith,
        s,
        slot-below n next j next_in (omega arith),
        mod-eq_of_lt {n = (next + n - filled) % n + i} {m = n} (omega (arith, s)),
      )
  | yes q ↦
      let s = oldest_above n next filled q fits in
      elim (dec_lt j next) [
        | yes p ↦ omega (
          arith,
          s,
          slot-below n next j next_in p,
          mod_once ((next + n - filled) % n + i) n (omega (arith, s)) (omega (arith, s)),
        )
        | no p ↦ omega (
          arith,
          s,
          slot-above n next j next_in (omega arith) (omega arith),
          mod-eq_of_lt {n = (next + n - filled) % n + i} {m = n} (omega (arith, s)),
        )
      ]
]

module _ {Line : Type 0} (line_size : Line → ℕ) (contains_id : String → Line → Bool)
    (unmarshal : Line → Option TraceRecord) (by_time : List TraceRecord → List TraceRecord) where
  abbrev pub parse_all : List Line → List TraceRecord
  parse_all [] = []
  parse_all (l ∷ ls) = cons_found (unmarshal l) (parse_all ls)

  -- The lines ahead of the first one that does not fit the scanner's buffer.
  unfoldable pub readable : List Line → List Line
  readable [] = []
  readable (l ∷ ls) =
      let rest = readable ls in if leb max_line_size (line_size l) then [] else l ∷ rest

  cons_found-append :
      (o : Option TraceRecord) (rs ts : List TraceRecord)
      → cons_found o rs ++ ts ≡ cons_found o (rs ++ ts)
  cons_found-append none rs ts = refl
  cons_found-append (some r) rs ts = refl

  parse_all-append : (ls ms : List Line) → parse_all (ls ++ ms) ≡ parse_all ls ++ parse_all ms
  parse_all-append [] ms = refl
  parse_all-append (l ∷ ls) ms =
      ap (cons_found (unmarshal l)) (parse_all-append ls ms)
      ∙ sym (cons_found-append (unmarshal l) (parse_all ls) (parse_all ms))

  -- The `count` newest of some lines, the newest of which comes first, are read from the oldest on.
  abbrev oldest_first : ℕ → List Line → List TraceRecord
  oldest_first zero recent = []
  oldest_first (suc c) recent =
      cons_found
        (parse_slot line_size contains_id unmarshal by_time (get_or (map some recent) c none))
        (oldest_first c recent)

  oldest_first-cons :
      (c : ℕ) (l : Line) (recent : List Line)
      → oldest_first (suc c) (l ∷ recent) ≡ oldest_first c recent ++ cons_found (unmarshal l) []
  oldest_first-cons zero l recent = refl
  oldest_first-cons (suc c) l recent =
      let o =
        parse_slot line_size contains_id unmarshal by_time (get_or (map some recent) c none) in
      ap (cons_found o) (oldest_first-cons c l recent)
      ∙ sym (cons_found-append o (oldest_first c recent) (cons_found (unmarshal l) []))

  oldest_first-reverse :
      (recent : List Line) → oldest_first (length recent) recent ≡ parse_all (reverse recent)
  oldest_first-reverse [] = refl
  oldest_first-reverse (l ∷ recent) =
      oldest_first-cons (length recent) l recent
      ∙ ap (λ rs. rs ++ cons_found (unmarshal l) []) (oldest_first-reverse recent)
      ∙ sym (parse_all-append (reverse recent) (l ∷ []))
      ∙ ap parse_all (sym (reverse-cons l recent))

  -- The buffer holds these lines, newest first.
  record Keeps (n : ℕ) (b : Buffer line_size contains_id unmarshal by_time) (recent : List Line)
      : Type 0 where
    size : length b.slots ≡ n
    next_in : b.next < n
    filled : b.filled ≡ length recent
    fits : length recent ≤ n
    in_order : InOrder none n b.slots b.next (map some recent)

  scan_line-Keeps :
      (m : ℕ) (b : Buffer line_size contains_id unmarshal by_time) (l : Line) (recent : List Line)
      → Keeps (suc m) b recent
      → Keeps
          (suc m)
          (scan_line line_size contains_id unmarshal by_time (suc m) b l)
          (take (suc m) (l ∷ recent))
  unfolding scan_line
  scan_line-Keeps m b l recent h = record {
    size = length-modify (λ _. some l) b.next b.slots ∙ h.size;
    next_in = next_lt (suc m) b.next h.next_in;
    filled = ground (arith, h.filled, h.fits, length-take_cases m recent);
    fits = length-take-le (l ∷ recent) (suc m);
    in_order = λ i k.
        InOrder-write none (some l) m b.slots b.next (map some recent) h.size h.next_in h.in_order i
          k
        ∙ ap (λ xs. get_or xs i none) (sym (map-take some (suc m) (l ∷ recent)));
  }

  scan_lines-Keeps :
      (m : ℕ) (ls : List Line) (b : Buffer line_size contains_id unmarshal by_time)
      (recent : List Line)
      → Keeps (suc m) b (take (suc m) recent)
      → Keeps
          (suc m)
          (scan_lines line_size contains_id unmarshal by_time (suc m) b ls)
          (take (suc m) (reverse_aux (readable ls) recent))
  unfolding scan_lines readable
  scan_lines-Keeps m [] b recent h = h
  scan_lines-Keeps m (l ∷ ls) b recent h = elim (Bool-cases (leb max_line_size (line_size l))) [
    | inl long ↦ rw long h
    | inr fits ↦ rw fits (
        scan_lines-Keeps m ls (scan_line line_size contains_id unmarshal by_time (suc m) b l)
          (l ∷ recent)
          (subst (Keeps (suc m) (scan_line line_size contains_id unmarshal by_time (suc m) b l))
            (ap (λ xs. l ∷ xs) (take-take-suc m recent))
            (scan_line-Keeps m b l (take (suc m) recent) h)))
  ]

  no_lines-none :
      (n i : ℕ) → get_or (no_lines line_size contains_id unmarshal by_time n) i none ≡ none
  no_lines-none zero i = refl
  no_lines-none (suc n) zero = refl
  no_lines-none (suc n) (suc i) = no_lines-none n i

  length-no_lines : (n : ℕ) → length (no_lines line_size contains_id unmarshal by_time n) ≡ n
  length-no_lines zero = refl
  length-no_lines (suc n) = ap suc (length-no_lines n)

  no_lines-Keeps :
      (m : ℕ)
      → Keeps
          (suc m)
          (record {
            slots = no_lines line_size contains_id unmarshal by_time (suc m);
            next = 0;
            filled = 0;
          })
          []
  no_lines-Keeps m = record {
    size = length-no_lines (suc m);
    next_in = omega arith;
    filled = refl;
    fits = omega arith;
    in_order = λ i k. no_lines-none (suc m) (slot (suc m) 0 i);
  }

  extract-oldest_first :
      (n : ℕ) (b : Buffer line_size contains_id unmarshal by_time) (recent : List Line)
      (count i : ℕ)
      → Keeps n b recent
      → i + count ≡ b.filled
      → extract line_size contains_id unmarshal by_time n b.slots
          ((b.next + n - b.filled) % n)
          i
          count
        ≡ oldest_first count recent
  unfolding extract
  extract-oldest_first n b recent zero i h e = refl
  extract-oldest_first n b recent (suc c) i h e =
      ap
        (λ o. cons_found (parse_slot line_size contains_id unmarshal by_time o) (
          extract line_size contains_id unmarshal by_time n b.slots ((b.next + n - b.filled) % n)
            (i + 1) c))
        (ap (λ j. get_or b.slots j none)
            (slot-oldest_first n b.next b.filled i c h.next_in (omega (arith, h.filled, h.fits)) e)
          ∙ h.in_order c (omega (arith, e, h.filled, h.fits)))
      ∙ ap
          (cons_found
            (parse_slot line_size contains_id unmarshal by_time (get_or (map some recent) c none)))
          (extract-oldest_first n b recent c (i + 1) h (omega (arith, e)))

  -- However many lines a file has, what is read from it are the last n of its lines, in their order, without
  -- those that are no records; but of a file with a line that does not fit the scanner's buffer only
  -- the lines ahead of the first such line count, whatever follows it.
  pub read_last_n_from_file-last :
      (m : ℕ) (file : Option (List Line))
      → read_last_n_from_file line_size contains_id unmarshal by_time (suc m) file
        ≡ parse_all (
            reverse (
              take
                (suc m)
                (reverse (readable (lines_of line_size contains_id unmarshal by_time file)))))
  unfolding read_last_n_from_file
  read_last_n_from_file-last m file =
      extract-oldest_first (suc m) b recent b.filled 0 k (omega arith)
      ∙ ap (λ c. oldest_first c recent) k.filled
      ∙ oldest_first-reverse recent
    where
      lines : List Line
      lines = lines_of line_size contains_id unmarshal by_time file

      empty : Buffer line_size contains_id unmarshal by_time
      empty = record {
        slots = no_lines line_size contains_id unmarshal by_time (suc m);
        next = 0;
        filled = 0;
      }

      b : Buffer line_size contains_id unmarshal by_time
      b = scan_lines line_size contains_id unmarshal by_time (suc m) empty lines

      recent : List Line
      recent = take (suc m) (reverse (readable lines))

      k : Keeps (suc m) b recent
      k = scan_lines-Keeps m lines empty [] (no_lines-Keeps m)
