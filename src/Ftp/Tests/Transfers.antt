-- ===== src/Ftp/Tests/Transfers.antt =====
-- A download and an upload over callbacks that deliver a few bytes at a time.
use vitacompanion_vitadeck.Prelude.{
  ℕ, ◌+◌, ◌-◌, min, ◌≡◌, refl, sym, ap, ◌∙◌, some, List, [], ◌++◌, arith, valid, pos, length, take,
  drop, take-take, codes, append-nil,
}
use vitacompanion_vitadeck.Ftp.Retr.{ReadFile, SendData, retr_extent}
use vitacompanion_vitadeck.Ftp.Retr.Transfer.{RetrContract, Delivered, retr_extent-Delivered}
use vitacompanion_vitadeck.Ftp.Store.{ReceiveData, WriteFile, store_stream}
use vitacompanion_vitadeck.Ftp.Store.Upload.{StoreContract, Uploaded, store_stream-Uploaded}

-- How much was taken of one side, and what the other side has.
abbrev World : Type 0
World = ℕ × List ℕ

abbrev file : List ℕ
file = codes "a file to send"

-- At most `most` bytes of what is left.
abbrev portion : ℕ → ℕ → ℕ → ℕ
portion most asked at = min (min asked most) (length file - at)

abbrev read_file : ReadFile World
read_file (at, out) buffer asked = (
  pos (portion 4 asked at),
  take (portion 4 asked at) (drop at file),
  (at + portion 4 asked at, out),
)

abbrev send_data : SendData World
send_data (at, out) bytes =
    (pos (min (length bytes) 3), pos 0, (at, out ++ take (min (length bytes) 3) bytes))

none_taken :
    (out bytes : List ℕ) → min (length bytes) 3 ≡ 0 → out ++ take (min (length bytes) 3) bytes ≡ out
none_taken out bytes h = rw (h) (append-nil out)

abbrev retr_contract : RetrContract read_file send_data file
retr_contract = record {
  offset = λ w. w.0;
  wire = λ w. w.1;
  read_bytes = λ w buffer asked good inside.
      (take-take (portion 4 asked w.0) (portion 4 asked w.0) (drop w.0 file) (omega arith), refl);
  read_wire = λ w buffer asked. refl;
  send_bytes = λ w bytes good. refl;
  send_fails = λ w bytes bad. none_taken w.1 bytes (ground (arith, bad));
  send_offset = λ w bytes. refl;
}

retr_extent-Delivered_example :
    Delivered retr_contract.wire file [] 2 9
      (retr_extent (some read_file) (some send_data) valid [] 5 2 9 (2, []))
retr_extent-Delivered_example =
    retr_extent-Delivered read_file send_data file [] 5 2 9 (2, []) retr_contract (omega arith)
      (omega arith) (omega arith) (omega arith) (omega arith) refl

abbrev receive_data : ReceiveData World
receive_data (at, out) buffer asked = (
  pos (portion 4 asked at),
  take (portion 4 asked at) (drop at file),
  pos 0,
  (at + portion 4 asked at, out),
)

abbrev write_file : WriteFile World
write_file (at, out) bytes =
    (pos (min (length bytes) 3), (at, out ++ take (min (length bytes) 3) bytes))

abbrev store_contract : StoreContract receive_data write_file file
store_contract = record {
  taken = λ w. min w.0 (length file);
  stored = λ w. w.1;
  receive_bytes = λ w buffer asked more good.
      let here : min w.0 14 ≡ w.0 = ground (arith, more) in
      (
        omega arith,
        take-take (portion 4 asked w.0) (portion 4 asked w.0) (drop w.0 file) (omega arith)
            ∙ ap (λ (j : ℕ). take (portion 4 asked w.0) (drop j file)) (sym here),
        omega (arith, here),
      );
  receive_end = λ w buffer asked room over. ground (arith, over);
  receive_stored = λ w buffer asked. refl;
  write_bytes = λ w bytes good. refl;
  write_fails = λ w bytes bad. none_taken w.1 bytes (ground (arith, bad));
  write_taken = λ w bytes. refl;
}

store_stream-Uploaded_example :
    Uploaded store_contract.stored file [] 0
      (store_stream 20 (some receive_data) (some write_file) valid [] 5 (0, []))
store_stream-Uploaded_example =
    store_stream-Uploaded receive_data write_file file 20 [] 5 (0, []) store_contract (omega arith)
      (omega arith) (omega arith) (omega arith) (omega arith)
