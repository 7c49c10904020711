-- ===== src/Core/Handlers/Receive.antt =====
-- CB::file_data of tox/core_private.h: the chunks of a file that is received.
use Prim.Native.Nat.{bit_or}
use tox4j.Base.{
  ℕ, ◌+◌, ◌<◌, true, some, List, [], ◌∷◌, ◌++◌, ◌≡◌, refl, sym, subst, ◌∙◌, arith, length, ◌==◌,
  if◌then◌else◌, length-append,
}
use mathlib.Core.List.{append-nil, append_assoc}
use tox4j.Base.Effect.{M, Returns, pure, ◌>>◌, chain-Returns, map-Returns}
use tox4j.Base.StdMap.{lookup, pair_key, pair_beq_iff}
use tox4j.Base.StdMap.Laws.{lookup-insert}
use tox4j.Core.Enums.{Bytes}
use tox4j.Core.Api.{ToxApi, OldFileControl}
use tox4j.Core.State.{FileTransfer, Session, get_transfer}
use tox4j.Core.Handlers.{file_data, acknowledge}

abbrev pub total : List Bytes → ℕ
total [] = 0
total (chunk ∷ chunks) = length chunk + total chunks

abbrev pub concat : List Bytes → Bytes
concat [] = []
concat (chunk ∷ chunks) = chunk ++ concat chunks

-- The client is told of each chunk with the position where it belongs.
abbrev pub told : {U : Type 0} → (ℕ → Bytes → ℕ → U → U) → ℕ → List Bytes → U → U
told f position [] u = u
told f position (chunk ∷ chunks) u =
    told f (position + length chunk) chunks (f position chunk (length chunk) u)

module _ {Tox : Type 0} (api : ToxApi Tox) where
  -- toxcore takes the FINISHED control.
  abbrev pub AcceptsFinished : ℕ → ℕ → Type 0
  AcceptsFinished fn num =
      (t : Tox) → (api.tox_file_send_control t fn true num OldFileControl.finished).0 ≡ 0

module _ {Tox U : Type 0} (api : ToxApi Tox) where
  -- The chunks come one after the other.
  abbrev pub receive : ℕ → ℕ → List Bytes → M (Session Tox U) (Unit {0})
  receive fn num [] = pure tt
  receive fn num (chunk ∷ chunks) =
      file_data api fn num chunk (length chunk) >> receive fn num chunks

  -- The entry and the callback that the next chunk meets, and what the client was told.
  abbrev pub HasReceived :
      ℕ → ℕ → (ℕ → ℕ → ℕ → Bytes → ℕ → U → U) → FileTransfer → U → Session Tox U → Type 0
  HasReceived fn num f e u t =
      (lookup (fn, bit_or num 0x100) t.new_tox.transfers ≡ some e)
      × (t.new_tox.callbacks.file_receive_chunk ≡ some f)
      × (t.user_data ≡ u)

  file_data_one :
      (fn num : ℕ) (chunk : Bytes) (s : Session Tox U) (e : FileTransfer) (u : U)
      (f : ℕ → ℕ → ℕ → Bytes → ℕ → U → U)
      → HasReceived fn num f e u s
      → AcceptsFinished api fn num
      → e.position + length chunk < 0x1_0000_0000_0000_0000
      → Returns (file_data api fn num chunk (length chunk) s) (λ _ t.
        HasReceived fn num f
          (record e { position = e.position + length chunk })
          (f fn (bit_or num 0x100) e.position chunk (length chunk) u)
          t)
  unfolding file_data acknowledge get_transfer
  file_data_one fn num chunk s e u f l a h =
      let k : ℕ × ℕ = (fn, bit_or num 0x100) in
      ground (
        arith,
        lookup-insert k k (record e { position = e.position + length chunk }) s.new_tox.transfers,
        pair_beq_iff k k,
        a s.new_tox.tox,
      )

  receive_to :
      (fn num : ℕ) (chunks : List Bytes) (s : Session Tox U) (e : FileTransfer) (u : U)
      (f : ℕ → ℕ → ℕ → Bytes → ℕ → U → U) (last : ℕ)
      → HasReceived fn num f e u s
      → AcceptsFinished api fn num
      → last ≡ e.position + total chunks
      → last < 0x1_0000_0000_0000_0000
      → Returns (receive fn num chunks s) (λ _ t.
        HasReceived fn num f
          (record e { position = last })
          (told (f fn (bit_or num 0x100)) e.position chunks u)
          t)
  receive_to fn num [] s e u f last l a q h =
      let here : e.position ≡ last = omega (arith, q) in rw (sym here) l
  receive_to fn num (chunk ∷ chunks) s e u f last l a q h =
      let first = file_data_one fn num chunk s e u f l a (omega (arith, q, h)) in
      chain-Returns _ _ (file_data api fn num chunk (length chunk) s)
        (λ _ t. receive fn num chunks t) first
        (λ _ t p.
          receive_to fn num chunks t (record e { position = e.position + length chunk })
            (f fn (bit_or num 0x100) e.position chunk (length chunk) u) f last p a
            (omega (arith, q)) h)

  -- If toxcore takes the FINISHED control, then the chunks of a file, one after the other, are all
  -- handed to the client, each with the position where it belongs, and the transfer's position ends
  -- after the last one, whatever the sizes, as long as it fits 64 bits.
  pub receive_lem :
      (fn num : ℕ) (chunks : List Bytes) (s : Session Tox U) (e : FileTransfer) (u : U)
      (f : ℕ → ℕ → ℕ → Bytes → ℕ → U → U)
      → HasReceived fn num f e u s
      → AcceptsFinished api fn num
      → e.position + total chunks < 0x1_0000_0000_0000_0000
      → Returns (receive fn num chunks s) (λ _ t.
        HasReceived fn num f
          (record e { position = e.position + total chunks })
          (told (f fn (bit_or num 0x100)) e.position chunks u)
          t)
  receive_lem fn num chunks s e u f l a h =
      receive_to fn num chunks s e u f (e.position + total chunks) l a refl h

-- A client that appends what it is told, if it is for where its file ends.
abbrev pub append_at : ℕ → Bytes → ℕ → Bytes → Bytes
append_at position chunk size file = if length file == position then file ++ chunk else file

told_append :
    (chunks : List Bytes) (file : Bytes)
    → told append_at (length file) chunks file ≡ file ++ concat chunks
told_append [] file = sym (append-nil file)
told_append (chunk ∷ chunks) file =
    let here : append_at (length file) chunk (length chunk) file ≡ file ++ chunk = ground arith in
    let ih : told append_at (length file + length chunk) chunks (file ++ chunk)
        ≡ (file ++ chunk) ++ concat chunks =
      rw (sym (length-append file chunk)) (told_append chunks (file ++ chunk)) in
    rw here (ih ∙ append_assoc file chunk (concat chunks))

-- A client that appends the chunks to its file ends up with the file that the friend sent, if it
-- starts with the part before the transfer's position, toxcore takes the FINISHED control, and the
-- size fits 64 bits.
pub receive_assembles :
    {Tox : Type 0} (api : ToxApi Tox) (fn num : ℕ) (chunks : List Bytes) (s : Session Tox Bytes)
    (e : FileTransfer)
    → HasReceived api fn num (λ _ _. append_at) e s.user_data s
    → AcceptsFinished api fn num
    → length s.user_data ≡ e.position
    → e.position + total chunks < 0x1_0000_0000_0000_0000
    → Returns (receive api fn num chunks s) (λ _ t. t.user_data ≡ s.user_data ++ concat chunks)
receive_assembles api fn num chunks s e l a q h =
    let there : told append_at e.position chunks s.user_data ≡ s.user_data ++ concat chunks =
      subst (λ p. told append_at p chunks s.user_data ≡ s.user_data ++ concat chunks) q
        (told_append chunks s.user_data) in
    map-Returns _ _ (receive api fn num chunks s) (λ _ t p. p.2 ∙ there)
      (receive_lem api fn num chunks s e s.user_data (λ _ _. append_at) l a h)
