-- ===== src/Sse/Encode.antt =====
-- How a server writes an event, by the format that the reader decodes: every field on a line of
-- its own, and a line of data for each line of the payload.
use kern_proxy.Base.{Bool, true, not, ◌&&◌, ◌||◌, List, [], ◌∷◌, ◌++◌, ◌==◌, if◌then◌else◌}
use kern_proxy.Base.Bytes.{Bytes, codes}
use kern_proxy.Sse.{Event}

-- The rest of the data lines, from the middle of one on.
unfoldable pub data_lines : Bytes → Bytes
data_lines [] = b'\n' ∷ []
data_lines (c ∷ s) =
    let rest = data_lines s in if c == b'\n' then b'\n' ∷ (codes "data: " ++ rest) else c ∷ rest

unfoldable pub encode : Event → Bytes
unfolding data_lines
encode e =
    codes "event: "
    ++ (e.event
        ++ b'\n'
          ∷ (codes "data: "
              ++ (data_lines e.payload
                  ++ (codes "id: "
                      ++ (e.id ++ b'\n' ∷ (codes "retry: " ++ (e.retry ++ b'\n' ∷ b'\n' ∷ [])))))))

unfoldable pub encode_all : List Event → Bytes
encode_all [] = []
encode_all (e ∷ es) = encode e ++ encode_all es

-- Neither of the bytes that end a line.
abbrev pub is_plain : Bytes → Bool
is_plain [] = true
is_plain (c ∷ s) = not (c == b'\n' || c == b'\r') && is_plain s
