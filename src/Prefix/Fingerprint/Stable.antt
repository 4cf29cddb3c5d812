-- ===== src/Prefix/Fingerprint/Stable.antt =====
-- prefix/fingerprint.go: what the last message of a request changes.
use switch.Prelude.{
  ℕ, ◌/◌, String, List, [], ◌∷◌, ◌++◌, ◌≡◌, refl, ap, false, take, snoc, length, str_eq,
}
use switch.Prelude.Bytes.{ascii}
use switch.Prefix.{Message}
use switch.Prefix.Fingerprint.{
  system_text, history_text, last_content, fingerprint_request, tree_of, sort_strings, with_zeros,
}

system_text-snoc :
    (ms : List Message) (m : Message)
    → str_eq m.role "system" ≡ false
    → system_text (snoc ms m) ≡ system_text ms
unfolding system_text
system_text-snoc [] m h = rw h refl
system_text-snoc (n ∷ ms) m h = rw (system_text-snoc ms m h) refl

history_text-snoc :
    (ms : List Message) (m m' : Message) → history_text (snoc ms m) ≡ history_text (snoc ms m')
unfolding history_text
history_text-snoc [] m m' = refl
history_text-snoc (n ∷ []) m m' = refl
history_text-snoc (n ∷ k ∷ ms) m m' =
    ap (λ t. ascii n.role ++ 58 ∷ n.content ++ 0 ∷ t) (history_text-snoc (k ∷ ms) m m')

last_content-snoc :
    (last : List ℕ) (ms : List Message) (m : Message) → last_content last (snoc ms m) ≡ m.content
unfolding last_content
last_content-snoc last [] m = refl
last_content-snoc last (n ∷ ms) m = last_content-snoc n.content ms m

fingerprint_request-tree :
    (hash : List ℕ → String) (ms : List Message) (m m' : Message) (tools : List (List ℕ))
    → str_eq m.role "system" ≡ false
    → fingerprint_request hash (snoc ms m) tools
      ≡ tree_of hash
          (system_text ms ++ with_zeros (sort_strings tools))
          (history_text (snoc ms m'))
          m.content
unfolding fingerprint_request
fingerprint_request-tree hash [] m m' tools h =
    rw (system_text-snoc [] m h, history_text-snoc [] m m', last_content-snoc [] [] m) refl
fingerprint_request-tree hash (n ∷ ms) m m' tools h =
    rw
      (
        system_text-snoc (n ∷ ms) m h,
        history_text-snoc (n ∷ ms) m m',
        last_content-snoc [] (n ∷ ms) m,
      )
      refl

-- Two requests that differ only in their last message, not the system's in either, have the same first
-- two segments, with the same lengths; the third is the hash of the content of the last message, and
-- its length a quarter of the bytes.
pub fingerprint_request-snoc :
    (hash : List ℕ → String) (ms : List Message) (m m' : Message) (tools : List (List ℕ))
    → str_eq m.role "system" ≡ false
    → str_eq m'.role "system" ≡ false
    → let t = fingerprint_request hash (snoc ms m) tools in
      let t' = fingerprint_request hash (snoc ms m') tools in
      (t.segments ≡ take 2 t'.segments ++ hash m.content ∷ [])
      × (t.token_len ≡ take 2 t'.token_len ++ length m.content / 4 ∷ [])
unfolding tree_of
fingerprint_request-snoc hash ms m m' tools h h' =
    rw
      (
        fingerprint_request-tree hash ms m m' tools h,
        fingerprint_request-tree hash ms m' m' tools h',
      )
      (refl, refl)
