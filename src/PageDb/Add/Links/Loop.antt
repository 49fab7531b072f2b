-- ===== src/PageDb/Add/Links/Loop.antt =====
-- All rounds of the loop of `page_db_add`.
use aduana.Common.{
  ℕ, ◌+◌, ◌^◌, ◌<◌, ◌≡◌, refl, sym, ◌∙◌, arith, Bool, true, false, List, [], ◌∷◌, ◌++◌,
  append_assoc, append-nil, length, All, Bool-cases, inl, inr,
}
use aduana.Util.Url.{same_domain}
use aduana.PageDb.Env.{Env}
use aduana.PageDb.PageInfo.{LinkInfo, CrawledPage}
use aduana.PageDb.Txn.{Txn}
use aduana.PageDb.Txn.Rules.{Ends, bind_rule, map_rule}
use aduana.PageDb.Add.{Progress, add_link, add_links}
use aduana.PageDb.Add.Consistent.{IsConsistent}
use aduana.PageDb.Add.Links.{links_of, IsLink, HasIds, Grows, ids_stay, Linked, add_link_lem}

links_of-cons :
    (inside : Bool) (url : List ℕ) (link : LinkInfo) (links : List LinkInfo)
    → links_of inside url (link ∷ links)
      ≡ links_of inside url (link ∷ []) ++ links_of inside url links
unfolding links_of
links_of-cons true url link links = elim (Bool-cases (same_domain url link.url)) [
  | inl h ↦ rw h
  | inr h ↦ rw h
]
links_of-cons false url link links = elim (Bool-cases (same_domain url link.url)) [
  | inl h ↦ rw h
  | inr h ↦ rw h
]

module _ (env : Env) where
  append-HasIds :
      (idxs : env.hash2idx_db.State) (xs ys : List LinkInfo) (is js : List ℕ)
      → HasIds env idxs xs is
      → HasIds env idxs ys js
      → HasIds env idxs (xs ++ ys) (is ++ js)
  append-HasIds idxs [] ys [] js h k = k
  append-HasIds idxs [] ys (i ∷ is) js h k = absurd h
  append-HasIds idxs (x ∷ xs) ys [] js h k = absurd h
  append-HasIds idxs (x ∷ xs) ys (i ∷ is) js h k = (h.0, append-HasIds idxs xs ys is js h.1 k)

  -- The ids of one side, after one link and after the others.
  abbrev Side : Bool → List ℕ → List LinkInfo → env.hash2idx_db.State → List ℕ → List ℕ → Type 0
  Side inside url links idxs before after =
      (ids : List ℕ) × (after ≡ before ++ ids) × HasIds env idxs (links_of inside url links) ids

  ids_of_both :
      (inside : Bool) (url : List ℕ) (link : LinkInfo) (links : List LinkInfo)
      (idxs idxs' : env.hash2idx_db.State) (before between after : List ℕ)
      → Grows env idxs idxs'
      → Side inside url (link ∷ []) idxs before between
      → Side inside url links idxs' between after
      → Side inside url (link ∷ links) idxs' before after
  ids_of_both inside url link links idxs idxs' before between after g (is, e, h) (js, e', k) = (
    is ++ js,
    rw (e', e) (append_assoc before is js),
    rw (links_of-cons inside url link links) (
        append-HasIds idxs' (links_of inside url (link ∷ [])) (links_of inside url links) is js
          (ids_stay env idxs idxs' (links_of inside url (link ∷ [])) is g h) k),
  )

  link_then_links :
      (url : List ℕ) (link : LinkInfo) (links : List LinkInfo) (t t1 t' : Txn env)
      (p p1 p' : Progress)
      → Linked env url (link ∷ []) t p t1 p1
      → Linked env url links t1 p1 t' p'
      → Linked env url (link ∷ links) t p t' p'
  link_then_links url link links t t1 t' p p1 p' a b = record {
    consistent = b.consistent;
    few = omega (arith, a.few, b.few);
    grows = λ h i e. b.grows h i (a.grows h i e);
    keeps = λ h x e. b.keeps h x (a.keeps h x e);
    same_links = b.same_links ∙ a.same_links;
    same_info = b.same_info ∙ a.same_info;
    diff =
        ids_of_both false url link links t1.hash2idx t'.hash2idx p.diff p1.diff p'.diff b.grows
          a.diff b.diff;
    same =
        ids_of_both true url link links t1.hash2idx t'.hash2idx p.same p1.same p'.same b.grows
          a.same b.same;
  }

  no_links :
      (url : List ℕ) (t : Txn env) (p : Progress)
      → IsConsistent env t.hash2info t.hash2idx p.n_pages
      → Linked env url [] t p t p
  unfolding links_of
  no_links url t p c = record {
    consistent = c;
    few = omega arith;
    grows = λ h i e. e;
    keeps = λ h b e. e;
    same_links = refl;
    same_info = refl;
    diff = ([], sym (append-nil p.diff), tt);
    same = ([], sym (append-nil p.same), tt);
  }

  module _ (page : CrawledPage) (cp_hash link_depth : ℕ) (from : cp_hash < 2 ^ 64)
      (deep : link_depth < 2 ^ 64) where
    pub add_links_lem :
        (links : List LinkInfo) (t : Txn env) (p : Progress)
        → All (IsLink env) links
        → IsConsistent env t.hash2info t.hash2idx p.n_pages
        → p.n_pages + length links < 2 ^ 64
        → Ends env
            (λ p' t'. Linked env page.url links t p t' p')
            (add_links env page cp_hash link_depth links p t)
    unfolding add_links
    add_links_lem [] t p ok c room = no_links page.url t p c
    add_links_lem (link ∷ links) t p ok c room =
        bind_rule env (λ p' t'. Linked env page.url (link ∷ []) t p t' p')
          (λ p' t'. Linked env page.url (link ∷ links) t p t' p')
          (add_link env page cp_hash link_depth link p t)
          (add_links env page cp_hash link_depth links)
          (add_link_lem env page cp_hash link_depth from deep link t p ok.0 c (omega arith))
          (λ p1 t1 a.
            map_rule env (λ p' t'. Linked env page.url links t1 p1 t' p')
              (λ p' t'. Linked env page.url (link ∷ links) t p t' p')
              (add_links env page cp_hash link_depth links p1 t1)
              (λ p' t' b. link_then_links page.url link links t t1 t' p p1 p' a b)
              (add_links_lem links t1 p1 ok.1 a.consistent (omega (arith, a.few))))
