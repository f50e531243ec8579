-- ===== src/Upload/Hasher/InOrder.antt =====
-- What `streamHasher` (internal/store/upload.go) does with chunks that come in order.
use xsync.Prelude.{
  ℕ, ◌+◌, ◌≡◌, refl, sym, ◌∙◌, ap, true, some, List, [], ◌∷◌, ◌++◌, length, length-append, ==_iff,
  arith,
}
use mathlib.Core.List.{append-nil, append_assoc}
use xsync.Prelude.Bytes.{Bytes}
use xsync.Upload.Hasher.{
  StreamHasher, new_stream_hasher, drain, write, result, File, file_write, Edit, written, edit,
  edit_all,
}

-- Chunks that follow each other from `at` on.
abbrev pub consecutive : ℕ → List Bytes → List Edit
consecutive at [] = []
consecutive at (p ∷ ps) = written p at ∷ consecutive (at + length p) ps

abbrev pub joined : List Bytes → Bytes
joined [] = []
joined (p ∷ ps) = p ++ joined ps

abbrev in_order : Bytes → ℕ → ℕ → StreamHasher
in_order h n held = record { h = h; next = n; pending = []; held = held; valid = true }

write-in_order :
    (h : Bytes) (n held : ℕ) (p : Bytes)
    → write (in_order h n held) p n ≡ in_order (h ++ p) (n + length p) held
unfolding write drain
write-in_order h n held p = rw ((==_iff n n).1 refl) refl

same : (h h' : Bytes) (n n' held : ℕ) → h ≡ h' → n ≡ n' → in_order h n held ≡ in_order h' n' held
same h h' n n' held e f = ap (λ x. in_order x n held) e ∙ ap (λ m. in_order h' m held) f

follow :
    (f : File) (ps : List Bytes) (h : Bytes) (n held : ℕ)
    → (edit_all (consecutive n ps) (f, in_order h n held)).1
      ≡ in_order (h ++ joined ps) (n + length (joined ps)) held
unfolding edit_all edit
follow f [] h n held = same h (h ++ []) n (n + 0) held (sym (append-nil h)) (omega arith)
follow f (p ∷ ps) h n held =
    ap (λ t. (edit_all (consecutive (n + length p) ps) (file_write f p n, t)).1)
      (write-in_order h n held p)
    ∙ follow (file_write f p n) ps (h ++ p) (n + length p) held
    ∙ same ((h ++ p) ++ joined ps) (h ++ (p ++ joined ps)) (n + length p + length (joined ps))
        (n + length (p ++ joined ps)) held (append_assoc h p (joined ps))
        (omega (arith, length-append p (joined ps)))

-- Chunks that come in order are hashed as they come: the hasher then gives a result, so the file
-- need not be read again.
pub consecutive-result :
    (f : File) (ps : List Bytes)
    → result (edit_all (consecutive 0 ps) (f, new_stream_hasher)).1 (length (joined ps))
      ≡ some (joined ps)
unfolding result
consecutive-result f ps = rw (follow f ps [] 0 0) (ground arith)
