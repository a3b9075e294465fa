-- ===== src/Opds/Lines.antt =====
-- src/opds.rs: the lines of a feed, as a client reads them: its head, the link up, and an entry for
-- each folder and each book.
use comic_stream.Common.{◌≡◌, refl, sym, ◌∙◌, ap, Option, none, some, List, [], ◌∷◌, ◌++◌, map}
use mathlib.Core.List.{append_assoc}
use comic_stream.Text.{Text, codes}
use comic_stream.Text.Decimal.{show}
use comic_stream.Models.{Folder, Book}
use comic_stream.Opds.{cat, esc}

-- The part stands somewhere in the text.
pub record Contains (part text : Text) : Type 0 where
  pub before : Text
  pub after : Text
  pub parts : text ≡ before ++ (part ++ after)

-- Pieces of text in front of another.
abbrev pub onto : List Text → Text → Text
onto [] t = t
onto (x ∷ xs) t = x ++ onto xs t

pub onto-cat : (xs : List Text) (t : Text) → onto xs t ≡ cat xs ++ t
onto-cat [] t = refl
onto-cat (x ∷ xs) t = ap (λ r. x ++ r) (onto-cat xs t) ∙ sym (append_assoc x (cat xs) t)

pub contains : (xs ys : List Text) (rest : Text) → Contains (cat ys) (onto xs (onto ys rest))
contains xs ys rest = record {
  before = cat xs;
  after = rest;
  parts = onto-cat xs (onto ys rest) ∙ ap (λ r. cat xs ++ r) (onto-cat ys rest);
}

-- Each of the texts is about the row at its place.
abbrev pub Each : {A : Type 0} → (A → Text → Type 0) → List A → List Text → Type 0
Each R [] [] = Unit
Each R [] (t ∷ ts) = ⊥
Each R (a ∷ rows) [] = ⊥
Each R (a ∷ rows) (t ∷ ts) = R a t × Each R rows ts

pub Each-map :
    {A : Type 0} (R : A → Text → Type 0) (f : A → Text)
    → ((a : A) → R a (f a))
    → (rows : List A) → Each R rows (map f rows)
Each-map R f h [] = tt
Each-map R f h (a ∷ rows) = (h a, Each-map R f h rows)

-- The line of a text's title.
abbrev pub title_of : Text → Text
title_of name = cat (codes "<title>" ∷ esc name ∷ codes "</title>" ∷ [])

-- An entry that shows a folder's name and leads to its own feed.
pub record IsFolderEntry (f : Folder) (entry : Text) : Type 0 where
  pub title : Contains (title_of f.name) entry
  pub link :
      Contains
        (cat (codes "<link rel=\"subsection\" href=\"/opds/folders/" ∷ f.slug ∷ codes "\"" ∷ []))
        entry

-- An entry that shows a book's name, leads to its file and has the number of its pages.
pub record IsBookEntry (b : Book) (entry : Text) : Type 0 where
  pub title : Contains (title_of b.name) entry
  pub link :
      Contains
        (cat (
          codes "<link rel=\"http://opds-spec.org/acquisition\" href=\"/books/"
          ∷ esc b.hash
          ∷ codes "/file\""
          ∷ []))
        entry
  pub pages : Contains (cat (codes "pse:count=\"" ∷ show b.page_count ∷ codes "\"" ∷ [])) entry

-- The line with the link up, which is there if there is something above.
abbrev pub IsUpLine : Option Text → Text → Type 0
IsUpLine none line = line ≡ []
IsUpLine (some up) line =
    Contains (cat (codes "<link rel=\"up\" href=\"" ∷ esc up ∷ codes "\"" ∷ [])) line

-- The text of a feed: a head with its title and the link to itself, the line with the link up, an
-- entry for each folder, an entry for each book, in their order, and the end.
pub record IsFeedText (name self_href : Text) (above : Option Text) (folders : List Folder)
    (books : List Book) (text : Text) : Type 0 where
  pub head : Text
  pub up : Text
  pub folder_entries : List Text
  pub book_entries : List Text
  pub parts : text ≡ head ++ (up ++ (cat folder_entries ++ (cat book_entries ++ codes "</feed>\n")))
  pub title : Contains (title_of name) head
  pub self :
      Contains (cat (codes "<link rel=\"self\" href=\"" ∷ esc self_href ∷ codes "\"" ∷ [])) head
  pub link_up : IsUpLine above up
  pub each_folder : Each IsFolderEntry folders folder_entries
  pub each_book : Each IsBookEntry books book_entries
