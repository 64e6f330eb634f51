-- ===== src/Smtp/Conn/Reads.antt =====
-- What one read or write does to a connection.
use smtp_sink.Prelude.{ℕ, suc, ◌≡◌, ◌∙◌, ap, append-nil, List, [], ◌∷◌, ◌++◌, none, some, String}
use smtp_sink.Text.{Text, Bytes}
use smtp_sink.Utf8.{from_utf8}
use smtp_sink.Exec.{ok, err, io_error}
use smtp_sink.Smtp.Conn.{Conn, read_line, read_from, write_all, flush, put_out}

module _ {S : Type 0} (c : Conn S) where
  pub read_line-nil : c.input ≡ [] → read_line c ≡ (ok [], c)
  unfolding read_line
  read_line-nil e = ap (λ ls. read_from ls c) e

  module _ (l : Bytes) (ls : List Bytes) (e : c.input ≡ l ∷ ls) where
    pub read_line_bad : from_utf8 l ≡ none → read_line c ≡ (err io_error, record c { input = ls })
    unfolding read_line
    read_line_bad h = ap (λ x. read_from x c) e ∙ rw (h, read_from)

    pub read_line_text :
        (line : Text) → from_utf8 l ≡ some line → read_line c ≡ (ok line, record c { input = ls })
    unfolding read_line
    read_line_text line h = ap (λ x. read_from x c) e ∙ rw (h, read_from)

  module _ (n : ℕ) (e : c.room ≡ suc n) where
    pub write_all-room :
        (payload : String)
        → write_all payload c ≡ (ok tt, record c { room = n; output = c.output ++ payload ∷ [] })
    unfolding write_all
    write_all-room payload = ap (λ m. put_out m (payload ∷ []) c) e

    pub flush-room : flush c ≡ (ok tt, record c { room = n })
    unfolding flush
    flush-room =
        ap (λ m. put_out m [] c) e
        ∙ ap (λ (o : List String). (ok tt, record c { room = n; output = o })) (append-nil c.output)
