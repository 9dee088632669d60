-- ===== src/Netfs/Client/Reads.antt =====
-- hw2-netfs: a client that reads from the server.
use mipt_kis_linux.Prelude.{
  ℕ, ◌+◌, ◌<◌, ◌≤◌, ◌≡◌, refl, ap, sym, subst, ◌∙◌, Bool, true, false, List, [], ◌∷◌, ◌++◌,
  append_assoc, arith, ◌==◌, length, take, drop, length-append, length-take,
}
use mipt_kis_linux.Rfs.Machine.{Mem, Message, invalid_position, size_mod}
use mipt_kis_linux.Rfs.Layout.{FsDescriptors}
use mipt_kis_linux.Rfs.Files.Content.{IsGeometry, IsFile, file_size, file_contents}
use mipt_kis_linux.Netfs.Socket.{Socket, safe_read}
use mipt_kis_linux.Netfs.Socket.Pieces.{Delivers}
use mipt_kis_linux.Netfs.Protocol.{Unread, read, read_array, write_array, string_fields}
use mipt_kis_linux.Netfs.Fields.{
  Yields, Yields-then, safe_read-Yields, read_array-Yields, length-string_fields, IsWord,
}
use mipt_kis_linux.Netfs.Roundtrip.{IsOperation}
use mipt_kis_linux.Netfs.Server.{
  Served, goes_on, thread_exit, slz_String_write, write_empty_error, serve_next_operation,
}
use mipt_kis_linux.Netfs.Server.Answers.{
  Leads, serve_next_operation-contents, serve_next_operation-past,
}
use mipt_kis_linux.Netfs.Client.{
  slz_String_read, Answered, value, refused, accept, read_error, read_response, after_error,
  receive_read, path_string, send_read,
}

slz_String_read-Yields :
    (pointer : ℕ) (text rest : List ℕ) (s : Socket)
    → IsWord (length text)
    → Delivers (slz_String_write pointer text ++ rest) s
    → Yields slz_String_read text rest s
unfolding slz_String_read slz_String_write
slz_String_read-Yields pointer text rest s fits d =
    Yields-then (safe_read 16) _ (string_fields pointer text) text (write_array text ++ rest) rest s
      (safe_read-Yields 16 (string_fields pointer text) (write_array text ++ rest) s
        (length-string_fields pointer text)
        (subst (λ bytes. Delivers bytes s)
          (append_assoc (string_fields pointer text) (write_array text) rest) d))
      (λ s1 d1.
        Yields-then read_array _ text text rest rest s1 (read_array-Yields text rest s1 fits d1)
          (λ s2 d2. (s2, refl, d2)))

-- A client that gets an answer, where the rest of the stream is next.
abbrev pub Gets : Answered (List ℕ) → List ℕ → Socket → Type 0
Gets answer rest s = (s' : Socket) × (receive_read s ≡ (answer, s')) × Delivers rest s'

pub receive_read-contents :
    (pointer : ℕ) (text rest : List ℕ) (s : Socket)
    → IsWord (length text)
    → Delivers ((write_empty_error pointer ++ slz_String_write pointer text) ++ rest) s
    → Gets (value text) rest s
unfolding receive_read read_error write_empty_error
receive_read-contents pointer text rest s fits d =
    let (s1, e1, d1) =
      slz_String_read-Yields pointer (0 ∷ []) (slz_String_write pointer text ++ rest) s
        (omega arith)
        (subst (λ bytes. Delivers bytes s)
          (append_assoc (slz_String_write pointer (0 ∷ [])) (slz_String_write pointer text) rest)
          d) in
    let (s2, e2, d2) = slz_String_read-Yields pointer text rest s1 fits d1 in
    (s2, ap (λ r. after_error (accept r)) e1 ∙ ap read_response e2, d2)

receive_read-refused :
    (pointer : ℕ) (text rest : List ℕ) (s : Socket)
    → 1 < length text
    → IsWord (length text)
    → Delivers (slz_String_write pointer text ++ rest) s
    → Gets (refused text) rest s
unfolding receive_read read_error
receive_read-refused pointer text rest s more fits d =
    let (s1, e1, d1) = slz_String_read-Yields pointer text rest s fits d in
    let long : (length text == 1) ≡ false = ground arith in
    (s1, ap (λ r. after_error (accept r)) e1 ∙ rw long refl, d1)

-- What the server sends for a request reaches the client as an answer, and both go on behind it.
abbrev pub Answers : Served → Answered (List ℕ) → Mem → Type 0
Answers (goes_on sent m' s') answer m =
    (m' ≡ m) × ((c : Socket) (rest : List ℕ) → Delivers (sent ++ rest) c → Gets answer rest c)
Answers (thread_exit sent m' s') answer m =
    (m' ≡ m) × ((c : Socket) (rest : List ℕ) → Delivers (sent ++ rest) c → Gets answer rest c)
Answers _ answer m = ⊥

module _ (unread : Unread) (fds : FsDescriptors) (malloc : ℕ → Bool) (m : Mem)
    (geo : IsGeometry fds m) (path : List ℕ) (b : ℕ) (cs : List ℕ)
    (leads : Leads fds m (path_string path) b) (file : IsFile fds m b cs)
    (pointer pointer' data_pointer : ℕ) (text : Message → List ℕ) (offset len : ℕ)
    (op : IsOperation (read (path_string path) offset len)) (rest : List ℕ) (s : Socket)
    (allocated : malloc len ≡ true)
    (sent : Delivers (send_read pointer' data_pointer path offset len ++ rest) s) where
  -- When a complete request of the client to read arrives, its path leads to a file whose chain
  -- has room for its size, its numbers fit in their fields, a buffer of the length that it asks
  -- for can be allocated, the offset is not behind the end and offset and length do not wrap, the
  -- server stores nothing, and a client to which its answer arrives, in any pieces and whatever
  -- follows, gets the part of the file's contents that it asked for, cut to its end.
  pub receive_read-serve_next_operation :
      offset ≤ file_size fds m b
      → offset + len < size_mod
      → Answers
          (serve_next_operation pointer fds malloc unread text s m)
          (value (take len (drop offset (file_contents fds m b cs))))
          m
  unfolding send_read
  receive_read-serve_next_operation inside no_wrap =
      let part = take len (drop offset (file_contents fds m b cs)) in
      let (s', e, d) =
        serve_next_operation-contents unread fds malloc m geo (path_string path) b cs leads file
          pointer pointer' data_pointer text offset len op rest s allocated sent inside no_wrap in
      let short : IsWord (length part) =
        omega (arith, length-take len (drop offset (file_contents fds m b cs))) in
      subst (λ served. Answers served (value part) m) (sym e)
        (refl, λ c rest' dc. receive_read-contents pointer part rest' c short dc)

  -- When a complete request of the client to read one byte or more arrives, its path leads to a
  -- file whose chain has room for its size, its numbers fit in their fields, a buffer of the
  -- length that it asks for can be allocated, the offset is behind the end, and the message of an
  -- invalid position is neither empty nor too long for its field, the server stores nothing, and a
  -- client to which its answer arrives, in any pieces and whatever follows, gets this message as
  -- an error.
  pub receive_read-past :
      0 < len
      → file_size fds m b < offset
      → 0 < length (text invalid_position)
      → IsWord (length (text invalid_position) + 1)
      → Answers
          (serve_next_operation pointer fds malloc unread text s m)
          (refused (text invalid_position ++ 0 ∷ []))
          m
  unfolding send_read
  receive_read-past some_asked past some_text short =
      let (s', e, d) =
        serve_next_operation-past unread fds malloc m geo (path_string path) b cs leads file pointer
          pointer' data_pointer text offset len op rest s allocated sent some_asked past in
      let size = length-append (text invalid_position) (0 ∷ []) in
      subst (λ served. Answers served (refused (text invalid_position ++ 0 ∷ [])) m) (sym e)
        (
          refl,
          λ c rest' dc.
              receive_read-refused pointer (text invalid_position ++ 0 ∷ []) rest' c
                (omega (arith, size)) (omega (arith, size)) dc,
        )
